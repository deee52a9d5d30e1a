-- ===== src/Capture/Writer/Content.antt =====
-- What a capture was handed: the packets and secrets handed to pcapgo for the file, whether its call
-- succeeded or not (Landed tells which did), and behind them those in memory.
use Prim.Native.Nat.{ℕ}
use go_e_bpf_proxy.Base.{
  ◌≡◌, refl, ap, ◌∙◌, Bool, true, false, List, [], ◌∷◌, ◌++◌, ◌&&◌, map, map-append, append_assoc,
  append-nil, length, take-append-drop, Bytes, ℤ, if_elim,
}
use go_e_bpf_proxy.Capture.Packet.{HeldPacket, Call, epb, dsb, flush, close_fd, WriteError, Pcapgo}
use go_e_bpf_proxy.Capture.Writer.{
  Writer, secrets_payload, set_room, drain, ripe, close_file, close_drained, tick, close, is_nil,
}
use go_e_bpf_proxy.Capture.Writer.Step.{packet_call, secret_calls, after_write, write_held_lem}

unfoldable pub epbs : List Call → List Call
epbs [] = []
epbs (epb ci bytes ∷ cs) = epb ci bytes ∷ epbs cs
epbs (_ ∷ cs) = epbs cs

unfoldable pub dsb_bytes : List Call → Bytes
dsb_bytes [] = []
dsb_bytes (dsb bytes ∷ cs) = bytes ++ dsb_bytes cs
dsb_bytes (_ ∷ cs) = dsb_bytes cs

-- Lines as a keylog holds them, each ended by a newline.
unfoldable pub terminate : List Bytes → Bytes
terminate [] = []
terminate (l ∷ ls) = l ++ b'\n' ∷ terminate ls

-- Every packet of the capture, oldest first: handed to pcapgo, then held.
unfoldable pub packets : Writer → List Call
packets w = epbs w.calls ++ map packet_call w.held

-- Every secret of the capture as keylog text: handed to pcapgo, then pending.
unfoldable pub secrets : Writer → Bytes
secrets w = dsb_bytes w.calls ++ terminate w.pending

epbs-append : (xs ys : List Call) → epbs (xs ++ ys) ≡ epbs xs ++ epbs ys
unfolding epbs
epbs-append [] ys = refl
epbs-append (epb ci bytes ∷ xs) ys = ap (◌∷◌ (epb ci bytes)) (epbs-append xs ys)
epbs-append (dsb bytes ∷ xs) ys = epbs-append xs ys
epbs-append (flush ∷ xs) ys = epbs-append xs ys
epbs-append (close_fd ∷ xs) ys = epbs-append xs ys

dsb_bytes-append : (xs ys : List Call) → dsb_bytes (xs ++ ys) ≡ dsb_bytes xs ++ dsb_bytes ys
unfolding dsb_bytes
dsb_bytes-append [] ys = refl
dsb_bytes-append (epb ci bytes ∷ xs) ys = dsb_bytes-append xs ys
dsb_bytes-append (dsb bytes ∷ xs) ys = rw (dsb_bytes-append xs ys, append_assoc)
dsb_bytes-append (flush ∷ xs) ys = dsb_bytes-append xs ys
dsb_bytes-append (close_fd ∷ xs) ys = dsb_bytes-append xs ys

epbs-packets : (hs : List HeldPacket) → epbs (map packet_call hs) ≡ map packet_call hs
unfolding epbs
epbs-packets [] = refl
epbs-packets (h ∷ hs) = ap (◌∷◌ (packet_call h)) (epbs-packets hs)

dsb_bytes-packets : (hs : List HeldPacket) → dsb_bytes (map packet_call hs) ≡ []
unfolding dsb_bytes
dsb_bytes-packets [] = refl
dsb_bytes-packets (h ∷ hs) = dsb_bytes-packets hs

epbs-secrets : (ls : List Bytes) → epbs (secret_calls ls) ≡ []
unfolding epbs
epbs-secrets [] = refl
epbs-secrets (l ∷ ls) = refl

secrets_payload-terminate :
    (l : Bytes) (ls : List Bytes) → secrets_payload (l ∷ ls) ≡ terminate (l ∷ ls)
unfolding secrets_payload terminate
secrets_payload-terminate l [] = refl
secrets_payload-terminate l (l' ∷ ls) = ap (λ t. l ++ b'\n' ∷ t) (secrets_payload-terminate l' ls)

dsb_bytes-secrets : (ls : List Bytes) → dsb_bytes (secret_calls ls) ≡ terminate ls
unfolding dsb_bytes terminate
dsb_bytes-secrets [] = refl
dsb_bytes-secrets (l ∷ ls) = append-nil _ ∙ secrets_payload-terminate l ls

pub terminate-append : (ks ls : List Bytes) → terminate (ks ++ ls) ≡ terminate ks ++ terminate ls
unfolding terminate
terminate-append [] ls = refl
terminate-append (k ∷ ks) ls = rw (terminate-append ks ls) (rw append_assoc refl)

-- What an operation that only writes leaves alone.
pub record Kept (w v : Writer) : Type 0 where
  pub stopped : v.stopped ≡ w.stopped
  pub admitted : v.admitted ≡ w.admitted
  pub path : v.path ≡ w.path
  pub on_stop : v.on_stop ≡ w.on_stop
  pub packets_of : packets v ≡ packets w
  pub secrets_of : secrets v ≡ secrets w

pub Kept-refl : (w : Writer) → Kept w w
Kept-refl w = record {
  stopped = refl;
  admitted = refl;
  path = refl;
  on_stop = refl;
  packets_of = refl;
  secrets_of = refl;
}

pub Kept-trans : {u v w : Writer} → Kept u v → Kept v w → Kept u w
Kept-trans a b = record {
  stopped = b.stopped ∙ a.stopped;
  admitted = b.admitted ∙ a.admitted;
  path = b.path ∙ a.path;
  on_stop = b.on_stop ∙ a.on_stop;
  packets_of = b.packets_of ∙ a.packets_of;
  secrets_of = b.secrets_of ∙ a.secrets_of;
}

packets-after_write : (w : Writer) (n : ℕ) → packets (after_write w n) ≡ packets w
unfolding packets
packets-after_write w n =
    simp (epbs-append, epbs-secrets, epbs-packets, append_assoc, ← map-append, take-append-drop)

secrets-after_write : (w : Writer) (n : ℕ) → secrets (after_write w n) ≡ secrets w
unfolding secrets terminate
secrets-after_write w n = simp (dsb_bytes-append, dsb_bytes-secrets, dsb_bytes-packets, append-nil)

pub after_write-Kept : (w : Writer) (n : ℕ) → Kept w (after_write w n)
after_write-Kept w n = record {
  stopped = refl;
  admitted = refl;
  path = refl;
  on_stop = refl;
  packets_of = packets-after_write w n;
  secrets_of = secrets-after_write w n;
}

-- Calls that are no blocks.
abbrev NoBlocks : List Call → Type 0
NoBlocks cs = (epbs cs ≡ []) × (dsb_bytes cs ≡ [])

called-Kept :
    (w : Writer) (cs : List Call) → NoBlocks cs → Kept w (record w { calls = w.calls ++ cs })
unfolding packets secrets
called-Kept w cs h = record {
  stopped = refl;
  admitted = refl;
  path = refl;
  on_stop = refl;
  packets_of = rw (epbs-append, h.0, append-nil);
  secrets_of = rw (dsb_bytes-append, h.1, append-nil);
}

settled-Kept :
    (w : Writer) (room : ℤ) (c d : Bool) (es : List WriteError)
    → Kept w (record w { room = room; closed = c; close_err = es; draining = d })
unfolding packets secrets
settled-Kept w room c d es = record {
  stopped = refl;
  admitted = refl;
  path = refl;
  on_stop = refl;
  packets_of = refl;
  secrets_of = refl;
}

pub set_room-Kept : (w : Writer) (n : ℤ) → Kept w (set_room w n)
unfolding set_room
set_room-Kept w n =
    if_elim (Kept w) w.limited (λ _. settled-Kept w n w.closed w.draining w.close_err)
      (λ _. Kept-refl w)

module _ (p : Pcapgo) where
  close_file-Kept : (w : Writer) → Kept w (close_file p w).0
  unfolding close_file epbs dsb_bytes
  close_file-Kept w = rw append_assoc (called-Kept w (flush ∷ close_fd ∷ []) (refl, refl))

  close_drained-Kept : (w : Writer) → Kept w (close_drained p w)
  unfolding close_drained
  close_drained-Kept w =
      if_elim (Kept w) (w.stopped && is_nil w.held && is_nil w.pending)
        (λ e. Kept-trans (close_file-Kept w) (settled-Kept (close_file p w).0 _ _ _ _))
        (λ e. Kept-refl w)

  drain-Kept : (w : Writer) (now : ℕ) → Kept w (drain p w now).0
  unfolding drain epbs dsb_bytes
  drain-Kept w now = rw (write_held_lem p) (
      Kept-trans (after_write-Kept w (ripe w.held now))
        (called-Kept (after_write w (ripe w.held now)) (flush ∷ []) (refl, refl)))

  pub tick-Kept : (w : Writer) (now : ℕ) → Kept w (tick p w now)
  unfolding tick
  tick-Kept w now =
      if_elim (Kept w) w.draining
        (λ e.
          Kept-trans (Kept-trans (drain-Kept w now) (close_drained-Kept _))
            (settled-Kept (close_drained p (drain p w now).0) _ _ _ _))
        (λ e. Kept-refl w)

  pub close-Kept : (w : Writer) → Kept w (close p w).0
  unfolding close
  close-Kept w =
      if_elim (λ (res : Writer × List WriteError). Kept w res.0) w.closed
        (λ e. settled-Kept w _ _ _ _)
        (λ e.
          Kept-trans
            (Kept-trans (settled-Kept w w.room true false w.close_err) (
              rw (write_held_lem p)
                (after_write-Kept (record w { draining = false; closed = true }) (length w.held))))
            (close_file-Kept _))
