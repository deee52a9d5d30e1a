-- ===== src/Capture/Writer/Change.antt =====
-- The kinds of change that a step of the Writer is made of.
use Prim.Native.Nat.{ℕ}
use go_e_bpf_proxy.Base.{
  ◌+◌, ◌≤◌, ◌≡◌, refl, ◌⊎◌, inl, inr, Bool, true, false, ◌&&◌, Option, none, some, List, [], ◌∷◌,
  ◌++◌, arith, subst, append_assoc, drop-length, length, Bytes, ℤ, pos_part, ltb_ℤ, signed64, add64,
  Bool-cases, if_elim, ◌==◌, Option-cases,
}
use go_e_bpf_proxy.Capture.Size.{epb_size, dsb_size}
use go_e_bpf_proxy.Capture.Packet.{
  CaptureInfo, HeldPacket, Stop, flush, close_fd, WriteError, Pcapgo,
}
use go_e_bpf_proxy.Capture.Writer.{
  Writer, set_room, admit, enqueue, stamp, overflow, notify_stop, is_nil, PacketResult, err_stopped,
  wrote, write_packet, add_secret, drain, close_file, close_drained, tick, close, write_held, ripe,
}
use go_e_bpf_proxy.Capture.Writer.Step.{
  Event, packet, secret, room, ticks, closes, event_bytes, event_room, step, after_write,
  write_held_lem,
}

-- A block of `n` bytes fits what is left of the room.
abbrev pub Fits : Writer → ℕ → Type 0
Fits w n = (w.limited && ltb_ℤ w.room (signed64 (add64 w.admitted n))) ≡ false

-- `m` bounds the bytes of a packet or line that comes in, and `r` a new room.
pub data Change (m r : ℕ) (w v : Writer) : Type 0 where
  refused : v ≡ record w { stopped = true } → Change m r w v
  queued :
      (h : HeldPacket)
      → length h.bytes ≤ m
      → w.stopped ≡ false
      → Fits w (epb_size (length h.bytes))
      → v ≡ record w {
        admitted = add64 w.admitted (epb_size (length h.bytes));
        held = w.held ++ h ∷ [];
        held_bytes = w.held_bytes + length h.bytes;
      }
      → Change m r w v
  noted :
      (l : Bytes)
      → length l ≤ m
      → w.stopped ≡ false
      → Fits w (dsb_size (length l + 1))
      → v ≡ record w {
        admitted = add64 w.admitted (dsb_size (length l + 1));
        pending = w.pending ++ l ∷ [];
      }
      → Change m r w v
  resized : (n : ℤ) → pos_part n ≤ r → w.limited ≡ true → v ≡ record w { room = n } → Change m r w v
  written : (n : ℕ) → v ≡ after_write w n → Change m r w v
  flushed : v ≡ record w { calls = w.calls ++ flush ∷ [] } → Change m r w v
  shut :
      w.held ≡ []
      → w.pending ≡ []
      → v ≡ record w { calls = w.calls ++ flush ∷ close_fd ∷ [] }
      → Change m r w v
  settled :
      (c d : Bool) (es : List WriteError)
      → v ≡ record w { closed = c; close_err = es; draining = d }
      → Change m r w v

pub data Changes (m r : ℕ) (w : Writer) : Writer → Type 0 where
  here : Changes m r w w
  next : {u v : Writer} → Changes m r w u → Change m r u v → Changes m r w v

-- What `admit` does, with the tests that lead there.
pub data Verdict (w : Writer) (n : ℕ) : Type 0 where
  admits :
      w.stopped ≡ false
      → Fits w n
      → admit w n ≡ (record w { admitted = add64 w.admitted n }, true, none)
      → Verdict w n
  stops :
      w.stopped ≡ false
      → (w.limited && ltb_ℤ w.room (signed64 (add64 w.admitted n))) ≡ true
      → admit w n ≡ (
        record w { stopped = true },
        false,
        some (record { path = w.path; bytes = w.admitted; room = w.room }),
      )
      → Verdict w n
  refuses : w.stopped ≡ true → admit w n ≡ (w, false, none) → Verdict w n

pub admit-Verdict : (w : Writer) (n : ℕ) → Verdict w n
unfolding admit
admit-Verdict w n = elim (Bool-cases w.stopped) [
  | inl e ↦ refuses e (rw e)
  | inr e ↦ elim (Bool-cases (w.limited && ltb_ℤ w.room (signed64 (add64 w.admitted n)))) [
    | inl full ↦ stops e full (rw (e, full))
    | inr fits ↦ admits e fits (rw (e, fits))
  ]
]

stopped_self : (w : Writer) → w.stopped ≡ true → w ≡ record w { stopped = true }
stopped_self w e = ground arith

add_secret-Changes :
    (m r : ℕ) (w : Writer) (l : Bytes) → length l ≤ m → Changes m r w (add_secret w l).0
unfolding add_secret
add_secret-Changes m r w [] h = here
add_secret-Changes m r w (b ∷ bs) h = elim (admit-Verdict w (dsb_size (length (b ∷ bs) + 1))) [
  | admits e fits eq ↦ rw eq (next here (noted (b ∷ bs) h e fits refl))
  | stops e full eq ↦ rw eq (next here (refused refl))
  | refuses e eq ↦ rw eq here
]

refused-Changes :
    (m r : ℕ) (w : Writer) (n : ℕ) {w' : Writer} {stop : Option Stop}
    → admit w n ≡ (w', false, stop)
    → Changes m r w w'
refused-Changes m r w n h = elim (admit-Verdict w n) [
  | admits e fits eq ↦ cc
  | stops e full eq ↦ next here (refused (ground arith))
  | refuses e eq ↦ next here (refused (ground arith))
]

is_nil-eq {ℓ} : {A : Type ℓ} (xs : List A) → is_nil xs ≡ true → xs ≡ []
is_nil-eq [] h = refl
is_nil-eq (x ∷ xs) h = cc

set_room-Changes : (m r : ℕ) (w : Writer) (n : ℤ) → pos_part n ≤ r → Changes m r w (set_room w n)
unfolding set_room
set_room-Changes m r w n b =
    if_elim (Changes m r w) w.limited (λ e. next here (resized n b e refl)) (λ e. here)

Changes-trans : {m r : ℕ} {u v w : Writer} → Changes m r u v → Changes m r v w → Changes m r u w
Changes-trans r here = r
Changes-trans r (next s c) = next (Changes-trans r s) c

-- The writer once a packet is admitted and queued.
abbrev pub queued_state : Writer → CaptureInfo → Bytes → ℕ → Writer
queued_state w ci bytes now =
    enqueue (record w { admitted = add64 w.admitted (epb_size (length bytes)) }) ci bytes now

queued_state-Change :
    (m r : ℕ) (w : Writer) (ci : CaptureInfo) (bytes : Bytes) (now : ℕ)
    → length bytes ≤ m
    → w.stopped ≡ false
    → Fits w (epb_size (length bytes))
    → Change m r w (queued_state w ci bytes now)
unfolding enqueue
queued_state-Change m r w ci bytes now b e fits =
    queued (record { ci = stamp ci (length bytes) now; bytes = bytes; at = now }) b e fits refl

module _ (p : Pcapgo) where
  write_held-Change : (m r : ℕ) (w : Writer) (n : ℕ) → Change m r w (write_held p w n).0
  write_held-Change m r w n = written n (write_held_lem p w n)

  -- The three ways in which WritePacket ends.
  pub data PacketCase (w : Writer) (ci : CaptureInfo) (bytes : Bytes) (now : ℕ) : Type 0 where
    turned_away :
        (w' : Writer) (stop : Option Stop)
        → admit w (epb_size (length bytes)) ≡ (w', false, stop)
        → write_packet p w ci bytes now ≡ some (w', err_stopped, notify_stop w' stop)
        → PacketCase w ci bytes now
    panics :
        overflow (queued_state w ci bytes now).held (queued_state w ci bytes now).held_bytes ≡ none
        → write_packet p w ci bytes now ≡ none
        → PacketCase w ci bytes now
    takes :
        (n : ℕ) (w' : Writer) (es : List WriteError)
        → w.stopped ≡ false
        → Fits w (epb_size (length bytes))
        → overflow (queued_state w ci bytes now).held (queued_state w ci bytes now).held_bytes
          ≡ some n
        → ((n ≡ 0) × (w' ≡ queued_state w ci bytes now))
          ⊎ (w' ≡ after_write (queued_state w ci bytes now) n)
        → write_packet p w ci bytes now ≡ some (w', wrote es, [])
        → PacketCase w ci bytes now

  pub write_packet-PacketCase :
      (w : Writer) (ci : CaptureInfo) (bytes : Bytes) (now : ℕ) → PacketCase w ci bytes now
  unfolding write_packet
  write_packet-PacketCase w ci bytes now = elim (admit-Verdict w (epb_size (length bytes))) [
    | stops e full eq ↦ turned_away _ _ eq (rw eq)
    | refuses e eq ↦ turned_away _ _ eq (rw eq)
    | admits e fits eq ↦ elim (Option-cases (overflow q.held q.held_bytes)) [
      | inl o ↦ panics o (rw (eq, o))
      | inr (n, o) ↦ elim (Bool-cases (n == 0)) [
        | inl z ↦ takes n q [] e fits o (inl (ground arith, refl)) (rw (eq, o, z))
        | inr nz ↦
            takes n _ (write_held p q n).1 e fits o (inr (write_held_lem p q n)) (rw (eq, o, nz))
      ]
    ]
  ]
    where
      q : Writer
      q = queued_state w ci bytes now

  write_packet-Changes :
      (m r : ℕ) (w : Writer) (ci : CaptureInfo) (bytes : Bytes) (now : ℕ) {w' : Writer}
      {res : PacketResult} {stops : List Stop}
      → length bytes ≤ m
      → write_packet p w ci bytes now ≡ some (w', res, stops)
      → Changes m r w w'
  write_packet-Changes m r w ci bytes now b h = elim (write_packet-PacketCase w ci bytes now) [
    | turned_away w1 stop eq out ↦
        subst (Changes m r w) (ground arith) (refused-Changes m r w (epb_size (length bytes)) eq)
    | panics o out ↦ absurd (cc)
    | takes n w1 es e fits o (inl (z, eq)) out ↦
        next here
          (subst (Change m r w) (ground arith) (queued_state-Change m r w ci bytes now b e fits))
    | takes n w1 es e fits o (inr eq) out ↦
        next (next here (queued_state-Change m r w ci bytes now b e fits))
          (written n (ground arith))
  ]

  close_drained-Changes : (m r : ℕ) (w : Writer) → Changes m r w (close_drained p w)
  unfolding close_drained close_file
  close_drained-Changes m r w =
      if_elim (Changes m r w) (w.stopped && is_nil w.held && is_nil w.pending)
        (λ e.
          next
            (next here
              (shut (is_nil-eq w.held (ground arith)) (is_nil-eq w.pending (ground arith)) refl))
            (settled true w.draining (close_file p w).1
              (ground (arith, append_assoc w.calls (flush ∷ []) (close_fd ∷ [])))))
        (λ e. here)

  drain-Changes : (m r : ℕ) (w : Writer) (now : ℕ) → Changes m r w (drain p w now).0
  unfolding drain
  drain-Changes m r w now =
      next (next here (write_held-Change m r w (ripe w.held now))) (flushed refl)

  tick-Changes : (m r : ℕ) (w : Writer) (now : ℕ) → Changes m r w (tick p w now)
  unfolding tick
  tick-Changes m r w now =
      if_elim (Changes m r w) w.draining
        (λ e.
          next
            (Changes-trans (drain-Changes m r w now) (close_drained-Changes m r (drain p w now).0))
            (settled _ _ _ refl))
        (λ e. here)

  close-Changes : (m r : ℕ) (w : Writer) → Changes m r w (close p w).0
  unfolding close close_file
  close-Changes m r w =
      if_elim (λ (res : Writer × List WriteError). Changes m r w res.0) w.closed
        (λ e. next here (settled w.closed false w.close_err refl))
        (λ e. rw (write_held_lem p) (
          next
            (next (next here (settled true false w.close_err refl)) (written (length w.held) refl))
            (shut (drop-length w.held) refl
              (ground (arith, append_assoc after.calls (flush ∷ []) (close_fd ∷ []))))))
    where
      after : Writer
      after = after_write w (length w.held)

  pub step-Changes :
      (m r : ℕ) (w : Writer) (e : Event) {w' : Writer} {stops : List Stop}
      → event_bytes e ≤ m
      → event_room e ≤ r
      → step p w e ≡ some (w', stops)
      → Changes m r w w'
  unfolding step
  step-Changes m r w (packet ci bytes now) b d h =
      elim (Option-cases (write_packet p w ci bytes now)) [
        | inl e ↦ absurd (ground arith)
        | inr ((w1, res, s), e) ↦
            subst (Changes m r w) (ground arith) (write_packet-Changes m r w ci bytes now b e)
      ]
  step-Changes m r w (secret l) b d h =
      subst (Changes m r w) (ground arith) (add_secret-Changes m r w l b)
  step-Changes m r w (room n) b d h =
      subst (Changes m r w) (ground arith) (set_room-Changes m r w n d)
  step-Changes m r w (ticks now) b d h =
      subst (Changes m r w) (ground arith) (tick-Changes m r w now)
  step-Changes m r w closes b d h = subst (Changes m r w) (ground arith) (close-Changes m r w)
