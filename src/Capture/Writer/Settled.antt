-- ===== src/Capture/Writer/Settled.antt =====
-- A Writer that has not been asked to close, and what a step of it does to its secrets.
use Prim.Native.Nat.{ℕ}
use go_e_bpf_proxy.Base.{
  ◌+◌, ◌≡◌, ◌⊎◌, refl, sym, ◌∙◌, subst, inl, inr, true, false, Option, some, List, [], ◌∷◌, ◌++◌,
  ◌&&◌, arith, append-nil, length, Bytes, Bool-cases, if_elim, ℤ,
}
use go_e_bpf_proxy.Capture.Size.{epb_size, dsb_size}
use go_e_bpf_proxy.Capture.Packet.{CaptureInfo, Options, Stop, Pcapgo}
use go_e_bpf_proxy.Capture.Writer.{
  Writer, enqueue, set_room, add_secret, is_nil, close_file, close_drained, drain, tick, close,
  new_writer,
}
use go_e_bpf_proxy.Capture.Writer.Step.{
  Event, packet, secret, room, ticks, step, after_write, write_held_lem,
}
use go_e_bpf_proxy.Capture.Writer.Change.{
  admit-Verdict, admits, stops, refuses, turned_away, panics, takes, write_packet-PacketCase,
  queued_state,
}
use go_e_bpf_proxy.Capture.Writer.Content.{dsb_bytes, secrets, terminate}
use go_e_bpf_proxy.Capture.Writer.Effect.{Effect, offered_lines, took, halted, ignored, step-Effect}
use go_e_bpf_proxy.Capture.Writer.History.{close_complete}
use go_e_bpf_proxy.Capture.Writer.Memory.{InCap, step-InCap}

-- A file that is closed without Close was stopped, and nothing waits for it.
pub record Settled (w : Writer) : Type 0 where
  pub stopped : w.closed ≡ true → w.stopped ≡ true
  pub emptied : w.closed ≡ true → w.pending ≡ []

-- A writer that runs as it should.
pub record Running (w : Writer) : Type 0 where
  pub in_cap : InCap w
  pub settled : Settled w

pub record Undisturbed (w w' : Writer) : Type 0 where
  pub running : Running w'
  pub secrets_of : secrets w' ≡ secrets w
  pub stays : w.stopped ≡ true → w'.stopped ≡ true

some-out :
    {w1 w2 : Writer} {c1 c2 : List Stop}
    → ◌≡◌ {A = Option (Writer × List Stop)} (some (w1, c1)) (some (w2, c2))
    → w2 ≡ w1
some-out e = ground arith

is_nil-eq : {A : Type 0} (xs : List A) → is_nil xs ≡ true → xs ≡ []
is_nil-eq [] e = refl
is_nil-eq (x ∷ xs) e = cc

Settled-open : (w : Writer) → w.closed ≡ false → Settled w
Settled-open w off = record { stopped = λ on. cc; emptied = λ on. absurd (cc) }

running-open : (w : Writer) → Settled w → w.stopped ≡ false → w.closed ≡ false
running-open w s off = elim (Bool-cases w.closed) [
  | inl on ↦ let stopped = s.stopped on in absurd (cc)
  | inr open_file ↦ open_file
]

secret-Settled : (w : Writer) (l : Bytes) → Settled w → Settled (add_secret w l).0
unfolding add_secret
secret-Settled w [] s = s
secret-Settled w (b ∷ bs) s = elim (admit-Verdict w (dsb_size (length (b ∷ bs) + 1))) [
  | admits off fits eq ↦ rw eq (Settled-open _ (running-open w s off))
  | stops off full eq ↦ rw eq (Settled-open _ (running-open w s off))
  | refuses on eq ↦ rw eq s
]

-- AddSecret writes nothing.
pub add_secret_calls : (w : Writer) (l : Bytes) → (add_secret w l).0.calls ≡ w.calls
unfolding add_secret
add_secret_calls w [] = refl
add_secret_calls w (b ∷ bs) = elim (admit-Verdict w (dsb_size (length (b ∷ bs) + 1))) [
  | admits off fits eq ↦ rw eq refl
  | stops off full eq ↦ rw eq refl
  | refuses on eq ↦ rw eq refl
]

set_room-Settled : (w : Writer) (n : ℤ) → Settled w → Settled (set_room w n)
unfolding set_room
set_room-Settled w n s =
    if_elim Settled w.limited (λ _. record { stopped = s.stopped; emptied = s.emptied }) (λ _. s)

module _ (p : Pcapgo) where
  packet-Settled :
      (w : Writer) (ci : CaptureInfo) (bytes : Bytes) (now : ℕ) {w' : Writer} {calls : List Stop}
      → Settled w
      → step p w (packet ci bytes now) ≡ some (w', calls)
      → Settled w'
  unfolding step enqueue
  packet-Settled w ci bytes now {w'} s h = elim (write_packet-PacketCase p w ci bytes now) [
    | turned_away w1 stop eq out ↦ elim (admit-Verdict w (epb_size (length bytes))) [
      | admits off fits eq2 ↦ absurd (cc)
      | stops off full eq2 ↦
          let same : w' ≡ record w { stopped = true } = ground arith in
          rw same (Settled-open _ (running-open w s off))
      | refuses on eq2 ↦ let same : w' ≡ w = ground arith in rw same s
    ]
    | panics o out ↦ absurd (ground arith)
    | takes n w1 es off fits o (inl (z, e)) out ↦
        let same : w' ≡ queued_state w ci bytes now = ground arith in
        rw same (Settled-open _ (running-open w s off))
    | takes n w1 es off fits o (inr e) out ↦
        let same : w' ≡ after_write (queued_state w ci bytes now) n = ground arith in
        rw same (Settled-open _ (running-open w s off))
  ]

  close_drained-Settled : (w : Writer) → Settled w → Settled (close_drained p w)
  unfolding close_drained close_file
  close_drained-Settled w s =
      if_elim Settled (w.stopped && is_nil w.held && is_nil w.pending)
        (λ e. record {
          stopped = λ _. ground arith;
          emptied = λ _. is_nil-eq w.pending (ground arith);
        })
        (λ _. s)

  drain-Settled : (w : Writer) (now : ℕ) → Settled w → Settled (drain p w now).0
  unfolding drain
  drain-Settled w now s =
      rw (write_held_lem p) (record { stopped = s.stopped; emptied = λ _. refl })

  tick-Settled : (w : Writer) (now : ℕ) → Settled w → Settled (tick p w now)
  unfolding tick
  tick-Settled w now s =
      if_elim Settled w.draining
        (λ _.
          let t = close_drained-Settled (drain p w now).0 (drain-Settled w now s) in
          record { stopped = t.stopped; emptied = t.emptied })
        (λ _. s)

  -- A step that brings no line leaves the secrets, and does not take a stop back.
  quiet_secrets :
      (w : Writer) (e : Event) {w' : Writer} {calls : List Stop}
      → offered_lines (e ∷ []) ≡ []
      → Effect w e w' calls
      → (secrets w' ≡ secrets w) × (w.stopped ≡ true → w'.stopped ≡ true)
  unfolding secrets terminate
  quiet_secrets w e no_line (took off off' pk sk path on_stop none_called) =
      (sk ∙ rw no_line (append-nil _), λ on. cc)
  quiet_secrets w e no_line (halted off form called) = rw form (refl, λ on. refl)
  quiet_secrets w e no_line (ignored on k none_called) = (k.secrets_of, λ _. k.stopped ∙ on)

  -- AddSecret takes the line, or capture has stopped and the secrets stay.
  pub secret_taken :
      (w : Writer) (b : ℕ) (bs : Bytes)
      → let w' = (add_secret w (b ∷ bs)).0 in
        ((w'.stopped ≡ false) × (secrets w' ≡ secrets w ++ terminate ((b ∷ bs) ∷ [])))
        ⊎ ((w'.stopped ≡ true) × (secrets w' ≡ secrets w))
  unfolding step offered_lines secrets
  secret_taken w b bs = elim (step-Effect p w (secret (b ∷ bs)) refl) [
    | took off off' pk sk path on_stop none_called ↦ inl (off', sk)
    | halted off form called ↦ rw form (inr (refl, refl))
    | ignored on k none_called ↦ inr (k.stopped ∙ on, k.secrets_of)
  ]

  pub secret-Running : (w : Writer) (l : Bytes) → Running w → Running (add_secret w l).0
  unfolding step
  secret-Running w l r =
      let (w', calls, h, c) = step-InCap p w (secret l) r.in_cap in
      record { in_cap = subst InCap (some-out h) c; settled = secret-Settled w l r.settled }

  undisturbed :
      (w : Writer) (e : Event) {w' : Writer} {calls : List Stop}
      → offered_lines (e ∷ []) ≡ []
      → Settled w'
      → Running w
      → step p w e ≡ some (w', calls)
      → Undisturbed w w'
  undisturbed w e no_line s r h =
      let (w1, c1, h1, c) = step-InCap p w e r.in_cap in
      let (same, stays) = quiet_secrets w e no_line (step-Effect p w e h) in
      record {
        running = record { in_cap = subst InCap (some-out (sym h ∙ h1)) c; settled = s };
        secrets_of = same;
        stays = stays;
      }

  pub packet-Undisturbed :
      (w : Writer) (ci : CaptureInfo) (bytes : Bytes) (now : ℕ)
      → Running w
      → (w' : Writer) × (calls : List Stop) × (step p w (packet ci bytes now) ≡ some (w', calls))
        × Undisturbed w w'
  unfolding offered_lines
  packet-Undisturbed w ci bytes now r =
      let e = packet ci bytes now in
      let (w', calls, h, c) = step-InCap p w e r.in_cap in
      (w', calls, h, undisturbed w e refl (packet-Settled w ci bytes now r.settled h) r h)

  pub tick-Undisturbed : (w : Writer) (now : ℕ) → Running w → Undisturbed w (tick p w now)
  unfolding step offered_lines
  tick-Undisturbed w now r = undisturbed w (ticks now) refl (tick-Settled w now r.settled) r refl

  pub set_room-Undisturbed : (w : Writer) (n : ℤ) → Running w → Undisturbed w (set_room w n)
  unfolding step offered_lines
  set_room-Undisturbed w n r = undisturbed w (room n) refl (set_room-Settled w n r.settled) r refl

  pub new_writer-Running : (path : Bytes) (o : Options) → Running (new_writer p path o)
  unfolding new_writer
  new_writer-Running path o = record {
    in_cap = omega arith;
    settled = Settled-open (new_writer p path o) refl;
  }

  pub new_writer-empty : (path : Bytes) (o : Options) → secrets (new_writer p path o) ≡ terminate []
  unfolding new_writer secrets dsb_bytes terminate
  new_writer-empty path o = refl

  -- When Close is through, all the secrets have been handed to pcapgo, whoever closed the file.
  pub close-secrets : (w : Writer) → Running w → dsb_bytes (close p w).0.calls ≡ secrets w
  unfolding close secrets terminate
  close-secrets w r = elim (Bool-cases w.closed) [
    | inr off ↦ (close_complete p w off).1
    | inl on ↦ let empty = r.settled.emptied on in rw (on, empty) (sym (append-nil _))
  ]
