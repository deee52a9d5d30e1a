-- ===== src/Capture/Writer/Effect.antt =====
-- What one step does to the content of a capture, and when it calls OnStop.
use Prim.Native.Nat.{ℕ}
use go_e_bpf_proxy.Base.{
  ◌+◌, ◌≡◌, refl, sym, ◌∙◌, ◌⊎◌, inl, inr, subst₂, true, false, Option, none, some, List, [], ◌∷◌,
  ◌++◌, map-append, arith, append_assoc, append-nil, length, Bytes, Bool-cases,
}
use go_e_bpf_proxy.Capture.Size.{epb_size, dsb_size}
use go_e_bpf_proxy.Capture.Packet.{CaptureInfo, Stop, Call, epb, Pcapgo}
use go_e_bpf_proxy.Capture.Writer.{Writer, stamp, enqueue, admit, add_secret, notify_stop}
use go_e_bpf_proxy.Capture.Writer.Step.{
  Event, packet, secret, room, ticks, closes, step, after_write,
}
use go_e_bpf_proxy.Capture.Writer.Change.{
  admit-Verdict, admits, stops, refuses, queued_state, turned_away, panics, takes,
  write_packet-PacketCase,
}
use go_e_bpf_proxy.Capture.Writer.Content.{
  packets, secrets, terminate, terminate-append, Kept, Kept-refl, after_write-Kept, tick-Kept,
  close-Kept, set_room-Kept,
}

-- The packets that events bring, stamped as WritePacket stamps them.
unfoldable pub offered : List Event → List Call
offered [] = []
offered (packet ci bytes now ∷ es) = epb (stamp ci (length bytes) now) bytes ∷ offered es
offered (_ ∷ es) = offered es

-- The lines that events bring. An empty line is none.
unfoldable pub offered_lines : List Event → List Bytes
offered_lines [] = []
offered_lines (secret [] ∷ es) = offered_lines es
offered_lines (secret (b ∷ bs) ∷ es) = (b ∷ bs) ∷ offered_lines es
offered_lines (_ ∷ es) = offered_lines es

-- What the Stop of a writer at its room says.
abbrev pub stop_of : Writer → Stop
stop_of w = record { path = w.path; bytes = w.admitted; room = w.room }

pub data Effect (w : Writer) (e : Event) (w' : Writer) (calls : List Stop) : Type 0 where
  took :
      w.stopped ≡ false
      → w'.stopped ≡ false
      → packets w' ≡ packets w ++ offered (e ∷ [])
      → secrets w' ≡ secrets w ++ terminate (offered_lines (e ∷ []))
      → w'.path ≡ w.path
      → w'.on_stop ≡ w.on_stop
      → calls ≡ []
      → Effect w e w' calls
  halted :
      w.stopped ≡ false
      → w' ≡ record w { stopped = true }
      → calls ≡ notify_stop w (some (stop_of w))
      → Effect w e w' calls
  ignored : w.stopped ≡ true → Kept w w' → calls ≡ [] → Effect w e w' calls

-- A step that only writes, or sets the room, brings nothing and calls nothing.
quiet :
    (w w' : Writer) (e : Event)
    → offered (e ∷ []) ≡ []
    → offered_lines (e ∷ []) ≡ []
    → Kept w w'
    → Effect w e w' []
unfolding terminate
quiet w w' e no_packet no_line k = elim (Bool-cases w.stopped) [
  | inl on ↦ ignored on k refl
  | inr off ↦
      took off (k.stopped ∙ off) (rw (no_packet, append-nil) k.packets_of)
        (rw (no_line, append-nil) k.secrets_of) k.path k.on_stop refl
]

packets-queued :
    (w : Writer) (ci : CaptureInfo) (bytes : Bytes) (now : ℕ)
    → packets (queued_state w ci bytes now)
      ≡ packets w ++ epb (stamp ci (length bytes) now) bytes ∷ []
unfolding packets enqueue
packets-queued w ci bytes now = simp (map-append, append_assoc)

secrets-noted :
    (w : Writer) (n : ℕ) (l : Bytes)
    → secrets (record w { admitted = n; pending = w.pending ++ l ∷ [] })
      ≡ secrets w ++ terminate (l ∷ [])
unfolding secrets
secrets-noted w n l = simp (terminate-append, append_assoc)

secrets-queued :
    (w : Writer) (ci : CaptureInfo) (bytes : Bytes) (now : ℕ)
    → secrets (queued_state w ci bytes now) ≡ secrets w
unfolding secrets enqueue
secrets-queued w ci bytes now = refl

packets-noted :
    (w : Writer) (n : ℕ) (ls : List Bytes)
    → packets (record w { admitted = n; pending = ls }) ≡ packets w
unfolding packets
packets-noted w n ls = refl

secret-Effect : (w : Writer) (l : Bytes) → Effect w (secret l) (add_secret w l).0 (add_secret w l).1
unfolding add_secret offered offered_lines
secret-Effect w [] = quiet w w (secret []) refl refl (Kept-refl w)
secret-Effect w (b ∷ bs) = elim (admit-Verdict w (dsb_size (length (b ∷ bs) + 1))) [
  | admits off fits eq ↦ rw eq (
      took off off (packets-noted w _ _ ∙ sym (append-nil _)) (secrets-noted w _ (b ∷ bs)) refl refl
        refl)
  | stops off full eq ↦ rw eq (halted off refl refl)
  | refuses on eq ↦ rw eq (ignored on (Kept-refl w) refl)
]

Effect-of :
    (w : Writer) (e : Event) {w1 w' : Writer} {c1 calls : List Stop}
    → ◌≡◌ {A = Option (Writer × List Stop)} (some (w1, c1)) (some (w', calls))
    → Effect w e w1 c1
    → Effect w e w' calls
Effect-of w e h x = subst₂ (Effect w e) (ground arith) (ground arith) x

refused-Effect :
    (w : Writer) (ci : CaptureInfo) (bytes : Bytes) (now n : ℕ) {w1 : Writer} {stop : Option Stop}
    → admit w n ≡ (w1, false, stop)
    → Effect w (packet ci bytes now) w1 (notify_stop w1 stop)
refused-Effect w ci bytes now n {w1} {stop} eq = elim (admit-Verdict w n) [
  | admits off fits eq2 ↦ absurd (cc)
  | stops off full eq2 ↦
      let e1 : w1 ≡ record w { stopped = true } = ground arith in
      let e2 : stop ≡ some (stop_of w) = ground arith in rw (e1, e2) (halted off refl refl)
  | refuses on eq2 ↦
      let e1 : w1 ≡ w = ground arith in
      let e2 : stop ≡ none = ground arith in rw (e1, e2) (ignored on (Kept-refl w) refl)
]

taken-Effect :
    (w : Writer) (ci : CaptureInfo) (bytes : Bytes) (now n : ℕ) (w1 : Writer)
    → w.stopped ≡ false
    → ((n ≡ 0) × (w1 ≡ queued_state w ci bytes now))
      ⊎ (w1 ≡ after_write (queued_state w ci bytes now) n)
    → Effect w (packet ci bytes now) w1 []
unfolding enqueue offered offered_lines terminate
taken-Effect w ci bytes now n w1 off (inl (z, e)) = rw e (
    took off off (packets-queued w ci bytes now)
      (secrets-queued w ci bytes now ∙ sym (append-nil _)) refl refl refl)
taken-Effect w ci bytes now n w1 off (inr e) =
    let k = after_write-Kept (queued_state w ci bytes now) n in
    rw e (
      took off (k.stopped ∙ off) (k.packets_of ∙ packets-queued w ci bytes now)
        (k.secrets_of ∙ secrets-queued w ci bytes now ∙ sym (append-nil _)) refl refl refl)

module _ (p : Pcapgo) where
  packet-Effect :
      (w : Writer) (ci : CaptureInfo) (bytes : Bytes) (now : ℕ) {w' : Writer} {calls : List Stop}
      → step p w (packet ci bytes now) ≡ some (w', calls)
      → Effect w (packet ci bytes now) w' calls
  unfolding step
  packet-Effect w ci bytes now h = elim (write_packet-PacketCase p w ci bytes now) [
    | turned_away w1 stop eq out ↦
        Effect-of w _ (ground arith) (refused-Effect w ci bytes now (epb_size (length bytes)) eq)
    | panics o out ↦ absurd (ground arith)
    | takes n w1 es off fits o form out ↦
        Effect-of w _ (ground arith) (taken-Effect w ci bytes now n w1 off form)
  ]

  pub step-Effect :
      (w : Writer) (e : Event) {w' : Writer} {calls : List Stop}
      → step p w e ≡ some (w', calls)
      → Effect w e w' calls
  unfolding step offered offered_lines
  step-Effect w (packet ci bytes now) h = packet-Effect w ci bytes now h
  step-Effect w (secret l) h = Effect-of w _ h (secret-Effect w l)
  step-Effect w (room n) h = Effect-of w _ h (quiet w _ (room n) refl refl (set_room-Kept w n))
  step-Effect w (ticks now) h =
      Effect-of w _ h (quiet w _ (ticks now) refl refl (tick-Kept p w now))
  step-Effect w closes h = Effect-of w _ h (quiet w _ closes refl refl (close-Kept p w))
