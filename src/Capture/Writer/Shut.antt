-- ===== src/Capture/Writer/Shut.antt =====
-- The Writer of internal/capture/pcapng.go behind Close.
use Prim.Native.Nat.{ℕ}
use go_e_bpf_proxy.Base.{
  ◌+◌, ◌≡◌, refl, sym, ap, ◌∙◌, ◌⊎◌, inl, inr, true, false, some, List, [], ◌∷◌, ◌++◌, All,
  append-nil, append_assoc, length, Bytes, if_elim, ℤ,
}
use go_e_bpf_proxy.Capture.Size.{dsb_size}
use go_e_bpf_proxy.Capture.Packet.{Pcapgo, Stop, WriteError}
use go_e_bpf_proxy.Capture.Writer.{Writer, add_secret, set_room, tick, close, close_file}
use go_e_bpf_proxy.Capture.Writer.Step.{
  Event, packet, secret, room, ticks, closes, step, run, write_held_lem,
}
use go_e_bpf_proxy.Capture.Writer.Change.{admit-Verdict, admits, stops, refuses}

-- Steps of the Writer that hand it no packet.
abbrev pub IsQuiet : Event → Type 0
IsQuiet (packet ci bytes now) = ⊥
IsQuiet _ = Unit {0}

-- A writer that Close has been through, and what stays so.
pub record Shut (w : Writer) : Type 0 where
  pub closed : w.closed ≡ true
  pub idle : w.draining ≡ false

-- Nothing is written, and lines only come behind those that wait.
pub record Stays (w w' : Writer) : Type 0 where
  pub shut : Shut w'
  pub calls : w'.calls ≡ w.calls
  pub more : List Bytes
  pub pending : w'.pending ≡ w.pending ++ more

Stays-refl : (w : Writer) → Shut w → Stays w w
Stays-refl w s = record { shut = s; calls = refl; more = []; pending = sym (append-nil w.pending) }

Stays-trans : {u v w : Writer} → Stays u v → Stays v w → Stays u w
Stays-trans {u} a b = record {
  shut = b.shut;
  calls = b.calls ∙ a.calls;
  more = a.more ++ b.more;
  pending = b.pending ∙ ap (λ t. t ++ b.more) a.pending ∙ append_assoc u.pending a.more b.more;
}

module _ (p : Pcapgo) where
  pub close-Shut : (w : Writer) → Shut (close p w).0
  unfolding close close_file
  close-Shut w =
      if_elim (λ (res : Writer × List WriteError). Shut res.0) w.closed
        (λ on. record { closed = on; idle = refl })
        (λ _. rw (write_held_lem p) (record { closed = refl; idle = refl }))

  pub secret-Stays : (w : Writer) (line : Bytes) → Shut w → Stays w (add_secret w line).0
  unfolding add_secret
  secret-Stays w [] s = Stays-refl w s
  secret-Stays w (b ∷ bs) s = elim (admit-Verdict w (dsb_size (length (b ∷ bs) + 1))) [
    | admits off fits eq ↦ rw eq (record {
      shut = record { closed = s.closed; idle = s.idle };
      calls = refl;
      more = (b ∷ bs) ∷ [];
      pending = refl;
    })
    | stops off full eq ↦ rw eq (record {
      shut = record { closed = s.closed; idle = s.idle };
      calls = refl;
      more = [];
      pending = sym (append-nil w.pending);
    })
    | refuses on eq ↦ rw eq (Stays-refl w s)
  ]

  -- What AddSecret does with a line: it keeps it, or capture has stopped.
  pub secret_kept :
      (w : Writer) (b : ℕ) (bs : Bytes)
      → ((add_secret w (b ∷ bs)).0.stopped ≡ true)
        ⊎ ((add_secret w (b ∷ bs)).0.pending ≡ w.pending ++ (b ∷ bs) ∷ [])
  unfolding add_secret
  secret_kept w b bs = elim (admit-Verdict w (dsb_size (length (b ∷ bs) + 1))) [
    | admits off fits eq ↦ inr (rw eq refl)
    | stops off full eq ↦ inl (rw eq refl)
    | refuses on eq ↦ inl (rw eq on)
  ]

  room-Stays : (w : Writer) (n : ℤ) → Shut w → Stays w (set_room w n)
  unfolding set_room
  room-Stays w n s =
      if_elim (Stays w) w.limited
        (λ _. record {
          shut = record { closed = s.closed; idle = s.idle };
          calls = refl;
          more = [];
          pending = sym (append-nil w.pending);
        })
        (λ _. Stays-refl w s)

  tick-Stays : (w : Writer) (now : ℕ) → Shut w → Stays w (tick p w now)
  unfolding tick
  tick-Stays w now s =
      if_elim (Stays w) w.draining (λ on. let off = s.idle in absurd (cc)) (λ _. Stays-refl w s)

  close-Stays : (w : Writer) → Shut w → Stays w (close p w).0
  unfolding close
  close-Stays w s =
      if_elim (λ (res : Writer × List WriteError). Stays w res.0) w.closed
        (λ on. record {
          shut = record { closed = on; idle = refl };
          calls = refl;
          more = [];
          pending = sym (append-nil w.pending);
        })
        (λ off. let on = s.closed in absurd (cc))

  step-Stays :
      (w : Writer) (e : Event)
      → Shut w
      → IsQuiet e
      → (w' : Writer) × (calls : List Stop) × (step p w e ≡ some (w', calls)) × Stays w w'
  unfolding step
  step-Stays w (packet ci bytes now) s quiet = absurd quiet
  step-Stays w (secret line) s quiet =
      ((add_secret w line).0, (add_secret w line).1, refl, secret-Stays w line s)
  step-Stays w (room n) s quiet = (set_room w n, [], refl, room-Stays w n s)
  step-Stays w (ticks now) s quiet = (tick p w now, [], refl, tick-Stays w now s)
  step-Stays w closes s quiet = ((close p w).0, [], refl, close-Stays w s)

  pub run-Stays :
      (w : Writer) (es : List Event)
      → Shut w
      → All IsQuiet es
      → (w' : Writer) × (calls : List Stop) × (run p w es ≡ some (w', calls)) × Stays w w'
  unfolding run
  run-Stays w [] s quiet = (w, [], refl, Stays-refl w s)
  run-Stays w (e ∷ es) s quiet =
      let (w1, s1, first, a) = step-Stays w e s quiet.0 in
      let (w2, s2, rest, b) = run-Stays w1 es a.shut quiet.1 in
      (w2, s1 ++ s2, rw (first, rest) refl, Stays-trans a b)
