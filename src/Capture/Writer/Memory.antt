-- ===== src/Capture/Writer/Memory.antt =====
-- The hold queue, its count of bytes, and the loop of WritePacket that reads it.
use Prim.Native.Nat.{ℕ}
use go_e_bpf_proxy.Base.{
  suc, ◌+◌, ◌-◌, ◌≤◌, ◌≡◌, refl, ap, ◌∙◌, ◌⊎◌, inl, inr, subst, Bool, Option, some, List, [], ◌∷◌,
  ◌++◌, arith, length, take, sum_of, sum_of-append, Bytes, sum_of-take-drop, ltb, Bool-cases,
}
use native.Mathlib.Nat.{le_refl, le_trans}
use go_e_bpf_proxy.Capture.Size.{epb_size, dsb_size}
use go_e_bpf_proxy.Capture.Packet.{HeldPacket, CaptureInfo, Options, Stop, Pcapgo}
use go_e_bpf_proxy.Capture.Writer.{
  Writer, new_writer, max_held_bytes, overflow, enqueue, stamp, admit, notify_stop, add_secret,
}
use go_e_bpf_proxy.Capture.Writer.Step.{
  Event, packet, secret, room, ticks, closes, event_bytes, event_room, step, run, packet_bytes,
  after_write,
}
use go_e_bpf_proxy.Capture.Writer.Change.{
  Change, refused, queued, noted, resized, written, flushed, shut, settled, Changes, here, next,
  step-Changes, queued_state, turned_away, panics, takes, write_packet-PacketCase,
}

-- On a queue whose total is right, the loop of WritePacket stops inside the queue, and what it
-- leaves fits.
overflow_lem :
    (hs : List HeldPacket) (held : ℕ)
    → held ≡ sum_of packet_bytes hs
    → (n : ℕ) × (overflow hs held ≡ some n)
      × (held - sum_of packet_bytes (take n hs) ≤ max_held_bytes)
unfolding overflow
overflow_lem [] held e = (0, ground arith, ground arith)
overflow_lem (h ∷ hs) held e = elim (Bool-cases (ltb max_held_bytes held)) [
  | inl over ↦
      let (n, eq, fits) = overflow_lem hs (held - length h.bytes) (omega arith) in
      (suc n, ground (arith, eq), omega arith)
  | inr under ↦ (0, ground arith, ground arith)
]

-- `held_bytes` is what the queue holds.
abbrev pub Accounted : Writer → Type 0
Accounted w = w.held_bytes ≡ sum_of packet_bytes w.held

Change-Accounted : {m r : ℕ} {w v : Writer} → Change m r w v → Accounted w → Accounted v
Change-Accounted (refused e) a = rw e a
Change-Accounted {w = w} (queued h _ _ _ e) a =
    rw e (omega (arith, sum_of-append packet_bytes w.held (h ∷ [])))
Change-Accounted (noted l _ _ _ e) a = rw e a
Change-Accounted (resized n _ _ e) a = rw e a
Change-Accounted {w = w} (written n e) a =
    rw e (omega (arith, sum_of-take-drop packet_bytes n w.held))
Change-Accounted (flushed e) a = rw e a
Change-Accounted (shut _ _ e) a = rw e a
Change-Accounted (settled c d es e) a = rw e a

Changes-Accounted : {m r : ℕ} {w v : Writer} → Changes m r w v → Accounted w → Accounted v
Changes-Accounted here a = a
Changes-Accounted (next rs c) a = Change-Accounted c (Changes-Accounted rs a)

-- The queue is accounted for and within its cap.
pub record InCap (w : Writer) : Type 0 where
  pub accounted : Accounted w
  pub capped : w.held_bytes ≤ max_held_bytes

-- With no bytes coming in, a change does not grow the queue.
Change-shrinks : {r : ℕ} {w v : Writer} → Change 0 r w v → v.held_bytes ≤ w.held_bytes
Change-shrinks (refused e) = rw e (le_refl _)
Change-shrinks (queued h none_in _ _ e) = rw e (omega arith)
Change-shrinks (noted l _ _ _ e) = rw e (le_refl _)
Change-shrinks (resized n _ _ e) = rw e (le_refl _)
Change-shrinks (written n e) = rw e (omega arith)
Change-shrinks (flushed e) = rw e (le_refl _)
Change-shrinks (shut _ _ e) = rw e (le_refl _)
Change-shrinks (settled c d es e) = rw e (le_refl _)

Changes-shrinks : {r : ℕ} {w v : Writer} → Changes 0 r w v → v.held_bytes ≤ w.held_bytes
Changes-shrinks here = le_refl _
Changes-shrinks (next rs c) = le_trans (Change-shrinks c) (Changes-shrinks rs)

admit-held_bytes : (w : Writer) (n : ℕ) → (admit w n).0.held_bytes ≡ w.held_bytes
unfolding admit
admit-held_bytes w n = ground arith

add_secret-held_bytes : (w : Writer) (l : Bytes) → (add_secret w l).0.held_bytes ≡ w.held_bytes
unfolding add_secret
add_secret-held_bytes w [] = refl
add_secret-held_bytes w (b ∷ bs) =
    ground (arith, admit-held_bytes w (dsb_size (length (b ∷ bs) + 1)))

-- What the loop of WritePacket leaves of the queue with the new packet in it.
room_for :
    (w : Writer) (ci : CaptureInfo) (bytes : Bytes) (now : ℕ)
    → InCap w
    → let q = queued_state w ci bytes now in
      (n : ℕ) × (overflow q.held q.held_bytes ≡ some n)
      × (q.held_bytes - sum_of packet_bytes (take n q.held) ≤ max_held_bytes)
unfolding enqueue
room_for w ci bytes now c =
    let q = queued_state w ci bytes now in
    overflow_lem q.held q.held_bytes (
      omega (
        arith,
        c.accounted,
        sum_of-append packet_bytes w.held
            ((record { ci = stamp ci (length bytes) now; bytes = bytes; at = now }) ∷ []),
      ))

taken_capped :
    (w : Writer) (ci : CaptureInfo) (bytes : Bytes) (now n : ℕ) (w1 : Writer) {n' : ℕ}
    → let q = queued_state w ci bytes now in
      ((n ≡ 0) × (w1 ≡ q)) ⊎ (w1 ≡ after_write q n)
      → n' ≡ n
      → q.held_bytes - sum_of packet_bytes (take n' q.held) ≤ max_held_bytes
      → w1.held_bytes ≤ max_held_bytes
taken_capped w ci bytes now n w1 (inl (z, e)) same fits =
    let q = queued_state w ci bytes now in
    let f =
      subst (λ k. q.held_bytes - sum_of packet_bytes (take k q.held) ≤ max_held_bytes) (same ∙ z)
        fits in
    rw e (omega (arith, f))
taken_capped w ci bytes now n w1 (inr e) same fits = rw (e, ← same) fits

module _ (p : Pcapgo) where
  -- The step goes through, and leaves the queue within its cap.
  abbrev Steps : Writer → Event → Type 0
  Steps w e =
      (w' : Writer) × (calls : List Stop) × (step p w e ≡ some (w', calls))
      × (w'.held_bytes ≤ max_held_bytes)

  packet-Steps :
      (w : Writer) (ci : CaptureInfo) (bytes : Bytes) (now : ℕ)
      → InCap w
      → Steps w (packet ci bytes now)
  unfolding step enqueue
  packet-Steps w ci bytes now c = elim (write_packet-PacketCase p w ci bytes now) [
    | turned_away w1 stop eq out ↦ (
      w1,
      notify_stop w1 stop,
      rw out,
      omega (
        arith,
        c.capped,
        admit-held_bytes w (epb_size (length bytes)),
        ap (λ (t : Writer × Bool × Option Stop). t.0.held_bytes) eq,
      ),
    )
    | panics o out ↦ absurd (let (n, stays, _) = room_for w ci bytes now c in cc)
    | takes n w1 es off fits o form out ↦
        let (n', stays, fits') = room_for w ci bytes now c in
        (w1, [], rw out, taken_capped w ci bytes now n w1 form (cc (stays, o)) fits')
  ]

  quiet-Steps :
      (w : Writer) (e : Event) {w' : Writer} {calls : List Stop}
      → event_bytes e ≡ 0
      → step p w e ≡ some (w', calls)
      → InCap w
      → w'.held_bytes ≤ max_held_bytes
  quiet-Steps w e none_in h c =
      le_trans (Changes-shrinks (step-Changes p 0 (event_room e) w e (omega arith) (le_refl _) h))
        c.capped

  step-Steps : (w : Writer) (e : Event) → InCap w → Steps w e
  unfolding step
  step-Steps w (packet ci bytes now) c = packet-Steps w ci bytes now c
  step-Steps w (secret l) c = (_, _, refl, omega (arith, c.capped, add_secret-held_bytes w l))
  step-Steps w (room n) c = (_, _, refl, quiet-Steps w (room n) refl refl c)
  step-Steps w (ticks now) c = (_, _, refl, quiet-Steps w (ticks now) refl refl c)
  step-Steps w closes c = (_, _, refl, quiet-Steps w closes refl refl c)

  pub step-InCap :
      (w : Writer) (e : Event)
      → InCap w
      → (w' : Writer) × (calls : List Stop) × (step p w e ≡ some (w', calls)) × InCap w'
  step-InCap w e c =
      let (w', calls, h, capped) = step-Steps w e c in
      (
        w',
        calls,
        h,
        record {
          accounted =
              Changes-Accounted
                (step-Changes p (event_bytes e) (event_room e) w e (le_refl _) (le_refl _) h)
                c.accounted;
          capped = capped;
        },
      )

  pub run-InCap :
      (w : Writer) (es : List Event)
      → InCap w
      → (w' : Writer) × (calls : List Stop) × (run p w es ≡ some (w', calls)) × InCap w'
  unfolding run
  run-InCap w [] c = (w, [], refl, c)
  run-InCap w (e ∷ es) c =
      let (w1, s1, h1, c1) = step-InCap w e c in
      let (w2, s2, h2, c2) = run-InCap w1 es c1 in (w2, s1 ++ s2, rw (h1, h2), c2)

-- No history makes a writer panic, and after every history the hold queue's count is right and at
-- most max_held_bytes.
pub run-memory :
    (p : Pcapgo) (path : Bytes) (o : Options) (es : List Event)
    → (w : Writer) × (calls : List Stop) × (run p (new_writer p path o) es ≡ some (w, calls))
      × (w.held_bytes ≡ sum_of packet_bytes w.held)
      × (w.held_bytes ≤ max_held_bytes)
unfolding new_writer
run-memory p path o es =
    let (w, calls, h, c) = run-InCap p (new_writer p path o) es (omega arith) in
    (w, calls, h, c.accounted, c.capped)
