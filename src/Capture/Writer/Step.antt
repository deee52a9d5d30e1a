-- ===== src/Capture/Writer/Step.antt =====
-- The critical sections of the Writer as steps. Whatever goroutines call the writer, what they do
-- to it is a sequence of these, in the order in which they take w.mu.
use Prim.Native.Nat.{ℕ}
use go_e_bpf_proxy.Base.{
  ◌-◌, ◌≡◌, refl, ◌>>=◌, inl, inr, Option, some, List, [], ◌∷◌, ◌++◌, map, arith, append_assoc,
  append-nil, length, take, drop, sum_of, Bytes, ℤ, pos_part, Option-cases,
}
use go_e_bpf_proxy.Capture.Packet.{CaptureInfo, HeldPacket, Stop, Call, epb, dsb, Pcapgo}
use go_e_bpf_proxy.Capture.Writer.{
  Writer, set_room, secrets_payload, write_secrets, write_packets, write_held, write_packet,
  add_secret, tick, close,
}

pub data Event : Type 0 where
  packet : CaptureInfo → Bytes → ℕ → Event
  secret : Bytes → Event
  room : ℤ → Event
  ticks : ℕ → Event
  closes : Event

-- The bytes of a packet or line that an event brings.
abbrev pub event_bytes : Event → ℕ
event_bytes (packet ci bytes now) = length bytes
event_bytes (secret line) = length line
event_bytes _ = 0

-- The room that an event sets, 0 if it is negative.
abbrev pub event_room : Event → ℕ
event_room (room n) = pos_part n
event_room _ = 0

module _ (p : Pcapgo) where
  -- The writer after the step, and the calls of OnStop that the step makes.
  unfoldable pub step : Writer → Event → Option (Writer × List Stop)
  step w (packet ci bytes now) = do
    (w', result, stops) ← write_packet p w ci bytes now
    some (w', stops)
  step w (secret line) = some (add_secret w line)
  step w (room n) = some (set_room w n, [])
  step w (ticks now) = some (tick p w now, [])
  step w closes = some ((close p w).0, [])

  unfoldable pub run : Writer → List Event → Option (Writer × List Stop)
  run w [] = some (w, [])
  run w (e ∷ es) = do (w', stops) ← step w e; (w'', stops') ← run w' es; some (w'', stops ++ stops')

abbrev pub packet_bytes : HeldPacket → ℕ
packet_bytes h = length h.bytes

abbrev pub packet_call : HeldPacket → Call
packet_call h = epb h.ci h.bytes

abbrev pub secret_calls : List Bytes → List Call
secret_calls [] = []
secret_calls (l ∷ ls) = dsb (secrets_payload (l ∷ ls)) ∷ []

-- What `write_held` makes of the writer, whatever fails.
abbrev pub after_write : Writer → ℕ → Writer
after_write w n = record w {
  calls = w.calls ++ (secret_calls w.pending ++ map packet_call (take n w.held));
  pending = [];
  held_bytes = w.held_bytes - sum_of packet_bytes (take n w.held);
  held = drop n w.held;
}

module _ (p : Pcapgo) where
  write_packets_lem :
      (w : Writer) (hs : List HeldPacket)
      → (write_packets p w hs).0 ≡ record w {
        calls = w.calls ++ map packet_call hs;
        held_bytes = w.held_bytes - sum_of packet_bytes hs;
      }
  unfolding write_packets
  write_packets_lem w [] = ground (arith, append-nil w.calls)
  write_packets_lem w (h ∷ hs) =
      rw
        (write_packets_lem
          (record w {
            calls = w.calls ++ packet_call h ∷ [];
            held_bytes = w.held_bytes - length h.bytes;
          })
          hs)
        (ground (arith, append_assoc w.calls (packet_call h ∷ []) (map packet_call hs)))

  write_secrets_lem :
      (w : Writer) (ls : List Bytes)
      → ls ≡ w.pending
      → (write_secrets p w ls).0 ≡ record w { calls = w.calls ++ secret_calls ls; pending = [] }
  unfolding write_secrets
  write_secrets_lem w [] e = ground (arith, append-nil w.calls)
  write_secrets_lem w (l ∷ ls) e = refl

  pub write_held_lem : (w : Writer) (n : ℕ) → (write_held p w n).0 ≡ after_write w n
  unfolding write_held
  write_held_lem w n =
      rw (write_packets_lem, write_secrets_lem w w.pending refl)
        (ground
          (arith, append_assoc w.calls (secret_calls w.pending) (map packet_call (take n w.held))))

  -- A run of more than no events is its first step and the run of the others.
  pub run_cons :
      (w : Writer) (e : Event) (es : List Event) {w' : Writer} {stops : List Stop}
      → run p w (e ∷ es) ≡ some (w', stops)
      → (w1 : Writer) × (s1 s2 : List Stop) × (step p w e ≡ some (w1, s1))
        × (run p w1 es ≡ some (w', s2))
        × (stops ≡ s1 ++ s2)
  unfolding run
  run_cons w e es h = elim (Option-cases (step p w e)) [
    | inl e1 ↦ absurd (ground arith)
    | inr ((w1, s1), e1) ↦ elim (Option-cases (run p w1 es)) [
      | inl e2 ↦ absurd (ground arith)
      | inr ((w2, s2), e2) ↦ (w1, s1, s2, e1, ground arith, ground arith)
    ]
  ]
