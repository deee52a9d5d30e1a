-- ===== src/Capture/Writer/Room.antt =====
-- Options.Room: the bytes that `admit` counts, and those on the file and in memory.
use Prim.Native.Nat.{ℕ}
use go_e_bpf_proxy.Base.{
  ◌+◌, ◌^◌, ◌≤◌, ◌<◌, ◌≡◌, ap, subst, Bool, true, false, ◌&&◌, some, List, [], ◌∷◌, ◌++◌, map,
  arith, append_assoc, append-nil, length, length-append, take, sum_of, sum_of-append,
  sum_of-take-drop, All, All-append, Bytes, ℤ, pos, pos_part, ◌≤ℤ◌, ltb_ℤ, signed64, add64,
}
use native.Mathlib.Nat.{le_trans}
use go_e_bpf_proxy.Capture.Size.{
  epb_size, dsb_size, epb_size_bounds, dsb_size_bounds, dsb_size_merge,
}
use go_e_bpf_proxy.Capture.Packet.{
  CaptureInfo, HeldPacket, Options, Stop, Call, epb, dsb, flush, close_fd, Pcapgo,
}
use go_e_bpf_proxy.Capture.Writer.{Writer, new_writer, link_type, header_size, secrets_payload}
use go_e_bpf_proxy.Capture.Writer.Step.{
  Event, event_bytes, event_room, run, run_cons, packet_call, secret_calls, after_write,
}
use go_e_bpf_proxy.Capture.Writer.Change.{
  Fits, Change, refused, queued, noted, resized, written, flushed, shut, settled, Changes, here,
  next, step-Changes,
}

-- What the sizes in the code rely on of pcapgo: NewNgWriter writes the headers that HeaderSize
-- counts, an Enhanced Packet Block has 32 bytes around the padded data, a Decryption Secrets Block
-- 20, and a call that fails writes no more than that.
pub record SizesAsDocumented (p : Pcapgo) (link : ℕ) : Type 0 where
  pub headers : p.file_size link [] ≡ p.header_size link
  pub on_epb :
      (cs : List Call) (ci : CaptureInfo) (bytes : Bytes)
      → p.file_size link (cs ++ epb ci bytes ∷ []) ≤ p.file_size link cs + epb_size (length bytes)
  pub on_dsb :
      (cs : List Call) (bytes : Bytes)
      → p.file_size link (cs ++ dsb bytes ∷ []) ≤ p.file_size link cs + dsb_size (length bytes)
  pub on_flush : (cs : List Call) → p.file_size link (cs ++ flush ∷ []) ≤ p.file_size link cs
  pub on_close : (cs : List Call) → p.file_size link (cs ++ close_fd ∷ []) ≤ p.file_size link cs

abbrev pub packet_cost : HeldPacket → ℕ
packet_cost h = epb_size (length h.bytes)

abbrev pub secret_cost : Bytes → ℕ
secret_cost l = dsb_size (length l + 1)

abbrev line_bytes : Bytes → ℕ
line_bytes l = length l + 1

length-secrets_payload :
    (l : Bytes) (ls : List Bytes) → length (secrets_payload (l ∷ ls)) ≡ sum_of line_bytes (l ∷ ls)
unfolding secrets_payload
length-secrets_payload l [] = omega (arith, length-append l (b'\n' ∷ []))
length-secrets_payload l (l' ∷ ls) =
    omega (arith, length-append l (b'\n' ∷ secrets_payload (l' ∷ ls)), length-secrets_payload l' ls)

-- One block for all pending lines is no larger than a block for each.
dsb_size-sum :
    (l : Bytes) (ls : List Bytes)
    → sum_of line_bytes (l ∷ ls) < 2 ^ 61
    → dsb_size (sum_of line_bytes (l ∷ ls)) ≤ sum_of secret_cost (l ∷ ls)
dsb_size-sum l [] h =
    let e : length l + 1 + 0 ≡ length l + 1 = omega arith in omega (arith, ap dsb_size e)
dsb_size-sum l (l' ∷ ls) h = omega (
  arith,
  dsb_size_merge (length l + 1) (sum_of line_bytes (l' ∷ ls)) (omega arith) (omega arith),
  dsb_size-sum l' ls (omega arith),
)

-- A line's cost is above its bytes.
line_bytes-le :
    (ls : List Bytes)
    → All (λ l. length l < 2 ^ 61) ls
    → sum_of line_bytes ls ≤ sum_of secret_cost ls
line_bytes-le [] h = omega arith
line_bytes-le (l ∷ ls) h =
    omega (arith, dsb_size_bounds (length l + 1) (omega arith), line_bytes-le ls h.1)

module _ (p : Pcapgo) (link : ℕ) (sizes : SizesAsDocumented p link) where
  file_size-packets :
      (cs : List Call) (hs : List HeldPacket)
      → p.file_size link (cs ++ map packet_call hs) ≤ p.file_size link cs + sum_of packet_cost hs
  file_size-packets cs [] = rw append-nil (omega arith)
  file_size-packets cs (h ∷ hs) =
      rw (← append_assoc cs (packet_call h ∷ []) (map packet_call hs)) (
        omega
          (arith, file_size-packets (cs ++ packet_call h ∷ []) hs, sizes.on_epb cs h.ci h.bytes))

  file_size-secrets :
      (cs : List Call) (ls : List Bytes)
      → All (λ l. length l < 2 ^ 61) ls
      → sum_of secret_cost ls < 2 ^ 61
      → p.file_size link (cs ++ secret_calls ls) ≤ p.file_size link cs + sum_of secret_cost ls
  file_size-secrets cs [] a h = rw append-nil (omega arith)
  file_size-secrets cs (l ∷ ls) a h = omega (
    arith,
    sizes.on_dsb cs (secrets_payload (l ∷ ls)),
    ap dsb_size (length-secrets_payload l ls),
    dsb_size-sum l ls (omega (arith, line_bytes-le (l ∷ ls) a)),
  )

-- The account that `admit` keeps: what is on the file and what is held or pending is counted, and
-- the count stays within `max`, which no room passes. No line or packet is longer than 2 ^ 31.
pub record Books (p : Pcapgo) (link max : ℕ) (w : Writer) : Type 0 where
  pub counted :
      p.file_size link w.calls + sum_of packet_cost w.held + sum_of secret_cost w.pending
      ≤ w.admitted
  pub within : w.admitted ≤ max
  pub limited : w.limited ≡ true
  pub room_in : w.room ≤ℤ pos max
  pub short : All (λ l. length l < 2 ^ 61) w.pending

new_room : (n : ℤ) (max : ℕ) → pos_part n ≤ max → n ≤ℤ pos max
new_room n max h = omega arith

fits_within :
    (limit : ℤ) (limited : Bool) (admitted n max : ℕ)
    → limited ≡ true
    → limit ≤ℤ pos max
    → admitted ≤ max
    → max < 2 ^ 60
    → n < 2 ^ 32
    → (limited && ltb_ℤ limit (signed64 (add64 admitted n))) ≡ false
    → (add64 admitted n ≡ admitted + n) × (admitted + n ≤ max)
fits_within limit limited admitted n max l r a b c f = ground arith

module _ (p : Pcapgo) (link max : ℕ) (sizes : SizesAsDocumented p link) (small : max < 2 ^ 60) where
  after_write-Books : (w : Writer) (n : ℕ) → Books p link max w → Books p link max (after_write w n)
  after_write-Books w n b = record {
    counted =
        rw (← append_assoc w.calls (secret_calls w.pending) (map packet_call (take n w.held))) (
          omega (
            arith,
            b.counted,
            b.within,
            file_size-packets p link sizes (w.calls ++ secret_calls w.pending) (take n w.held),
            file_size-secrets p link sizes w.calls w.pending b.short
                (omega (arith, b.counted, b.within)),
            sum_of-take-drop packet_cost n w.held,
          ));
    within = b.within;
    limited = b.limited;
    room_in = b.room_in;
    short = tt;
  }

  queued-Books :
      (w : Writer) (h : HeldPacket)
      → length h.bytes < 2 ^ 31
      → Fits w (packet_cost h)
      → Books p link max w
      → Books p link max (record w {
        admitted = add64 w.admitted (packet_cost h);
        held = w.held ++ h ∷ [];
        held_bytes = w.held_bytes + length h.bytes;
      })
  queued-Books w h s f b =
      let cost = epb_size_bounds (length h.bytes) (omega arith) in
      let e =
        fits_within w.room w.limited w.admitted (packet_cost h) max b.limited b.room_in b.within
          small (omega (arith, cost)) f in
      record {
        counted = omega (arith, b.counted, e, sum_of-append packet_cost w.held (h ∷ []));
        within = omega (arith, e);
        limited = b.limited;
        room_in = b.room_in;
        short = b.short;
      }

  noted-Books :
      (w : Writer) (l : Bytes)
      → length l < 2 ^ 31
      → Fits w (secret_cost l)
      → Books p link max w
      → Books p link max
          (record w { admitted = add64 w.admitted (secret_cost l); pending = w.pending ++ l ∷ [] })
  noted-Books w l s f b =
      let cost = dsb_size_bounds (length l + 1) (omega arith) in
      let e =
        fits_within w.room w.limited w.admitted (secret_cost l) max b.limited b.room_in b.within
          small (omega (arith, cost)) f in
      record {
        counted = omega (arith, b.counted, e, sum_of-append secret_cost w.pending (l ∷ []));
        within = omega (arith, e);
        limited = b.limited;
        room_in = b.room_in;
        short = All-append (λ k. length k < 2 ^ 61) w.pending (l ∷ []) b.short (omega arith, tt);
      }

  regrown :
      (w : Writer) (cs : List Call)
      → p.file_size link cs ≤ p.file_size link w.calls
      → Books p link max w
      → Books p link max (record w { calls = cs })
  regrown w cs h b = record {
    counted = omega (arith, b.counted);
    within = b.within;
    limited = b.limited;
    room_in = b.room_in;
    short = b.short;
  }

  -- The bounds of the parameters `m` and `r` of `Change`.
  Change-Books : {w v : Writer} → Change (2 ^ 30) max w v → Books p link max w → Books p link max v
  Change-Books {w} (refused e) b = rw e (assumption)
  Change-Books {w} (queued h s _ fits e) b = rw e (queued-Books w h (omega arith) fits b)
  Change-Books {w} (noted l s _ fits e) b = rw e (noted-Books w l (omega arith) fits b)
  Change-Books {w} (resized n r _ e) b = rw e (assumption (new_room n max r))
  Change-Books {w} (written n e) b = rw e (after_write-Books w n b)
  Change-Books {w} (flushed e) b = rw e (regrown w _ (sizes.on_flush w.calls) b)
  Change-Books {w} (shut _ _ e) b =
      rw (e, ← append_assoc w.calls (flush ∷ []) (close_fd ∷ []))
        (regrown w _ (le_trans (sizes.on_close _) (sizes.on_flush w.calls)) b)
  Change-Books {w} (settled c d es e) b = rw e (assumption)

  Changes-Books :
      {w v : Writer} → Changes (2 ^ 30) max w v → Books p link max w → Books p link max v
  Changes-Books here b = b
  Changes-Books (next r c) b = Change-Books c (Changes-Books r b)

  run-Books :
      (w : Writer) (es : List Event) {w' : Writer} {stops : List Stop}
      → All (λ e. (event_bytes e ≤ 2 ^ 30) × (event_room e ≤ max)) es
      → run p w es ≡ some (w', stops)
      → Books p link max w
      → Books p link max w'
  unfolding run
  run-Books w [] a h b = subst (Books p link max) (ground arith) b
  run-Books w (e ∷ es) a h b =
      let (w1, s1, s2, e1, rest, _) = run_cons p w e es h in
      run-Books w1 es a.1 rest (Changes-Books (step-Changes p (2 ^ 30) max w e a.0.0 a.0.1 e1) b)

-- The capture file of a writer that NewWriter made with a room never passes `max`, if neither the
-- headers, which NewWriter writes whatever the room, nor that room nor any later one that SetRoom
-- gave it do: whatever packets and lines came in, in whatever order, and whatever failed. Sizes are
-- pcapgo's; no packet or line is longer than 2 ^ 30 bytes and `max` is below 2 ^ 60.
pub run-file_size :
    (p : Pcapgo) (path : Bytes) (o : Options) (max : ℕ) (es : List Event) {w : Writer}
    {stops : List Stop}
    → SizesAsDocumented p (link_type p o)
    → max < 2 ^ 60
    → pos 1 ≤ℤ o.room
    → o.room ≤ℤ pos max
    → header_size p o ≤ max
    → All (λ e. (event_bytes e ≤ 2 ^ 30) × (event_room e ≤ max)) es
    → run p (new_writer p path o) es ≡ some (w, stops)
    → p.file_size (link_type p o) w.calls ≤ max
unfolding new_writer header_size
run-file_size p path o max es {w} sizes small positive room_in head a h =
    let b = run-Books p (link_type p o) max sizes small (new_writer p path o) es a h fresh in
    omega (arith, b.counted, b.within)
  where
    fresh : Books p (link_type p o) max (new_writer p path o)
    fresh = record {
      counted = omega (arith, sizes.headers);
      within = head;
      limited = ground arith;
      room_in = room_in;
      short = tt;
    }
