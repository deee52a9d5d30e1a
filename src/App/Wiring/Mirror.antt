-- ===== src/App/Wiring/Mirror.antt =====
-- The keylog against the capture's secrets, over a whole run.
use go_e_bpf_proxy.Base.{
  ◌≡◌, refl, ap, ◌⊎◌, true, false, Option, none, some, List, [], ◌∷◌, ◌++◌, length, drop, Bytes,
}
use go_e_bpf_proxy.Capture.Packet.{Pcapgo}
use go_e_bpf_proxy.Capture.Writer.{Writer}
use go_e_bpf_proxy.Capture.Writer.Content.{secrets, terminate}
use go_e_bpf_proxy.Capture.Writer.Landed.{Landed}
use go_e_bpf_proxy.Capture.Writer.Settled.{Running}
use go_e_bpf_proxy.Keylog.Append.{KeylogWriter}
use go_e_bpf_proxy.Keylog.Append.Adds.{Adds, left, added, append-Adds}
use go_e_bpf_proxy.App.Wiring.{
  Wired, enforce_retention, capture_state, is_active, capture_active, wire_keylog, Work,
  packet_read, drained, retention_due, Move, works, appends, work, work_all, sink, append_line,
  move, moves,
}

module _ (p : Pcapgo) where
  work-none : (k : Work) → work p none k ≡ some none
  unfolding work enforce_retention
  work-none (packet_read ci bytes now) = refl
  work-none (drained now) = refl
  work-none (retention_due rt before now removes after) = refl

  work_all-none : (ks : List Work) → work_all p none ks ≡ some none
  unfolding work_all
  work_all-none [] = refl
  work_all-none (k ∷ ks) = rw (work-none k) (work_all-none ks)

  sink-none : (ls : List Bytes) → sink p none ls ≡ none
  unfolding sink
  sink-none [] = refl
  sink-none (l ∷ ls) = sink-none ls

  -- The keylog's file against the capture: what the capture holds, and what it does not, which is
  -- nothing or one line for which capture has stopped.
  record Held (k : KeylogWriter) (w : Writer) : Type 0 where
    pub kept : List Bytes
    pub lost : List Bytes
    pub file : k.file ≡ kept ++ lost
    pub secrets_of : secrets w ≡ terminate kept
    pub at_most_one : (lost ≡ []) ⊎ ((w.stopped ≡ true) × (length lost ≡ 1))
    pub running : Running w
    pub gated : k.gated ≡ true
    pub has_sink : k.has_sink ≡ true

  unstarted_move :
      (k : KeylogWriter) (m : Move)
      → k.gated ≡ true
      → move p (record { keylog = k; capture = none }) m
        ≡ some (record { keylog = k; capture = none })
  unfolding move append_line capture_active capture_state is_active
  unstarted_move k (works n) g = rw (work-none n) refl
  unstarted_move k (appends line meanwhile fails) g =
      rw (work_all-none meanwhile) (go (append-Adds k line false fails g))
    where
      go :
          {k' : KeylogWriter}
          → Adds k line false k'
          → ◌≡◌ {A = Option Wired}
              (some (record { keylog = k'; capture = sink p none (drop (length k.sunk) k'.sunk) }))
              (some (record { keylog = k; capture = none }))
      go left = ap (λ c. some (record { keylog = k; capture = c })) (sink-none _)
      go (added k' on valid file sunk gated has_sink) = absurd (cc)

  -- A run that starts no capture panics in no history and keeps no key: its keylog stays empty.
  pub moves_unstarted : (ms : List Move) → moves p (wire_keylog none) ms ≡ some (wire_keylog none)
  unfolding wire_keylog moves
  moves_unstarted [] = refl
  moves_unstarted (m ∷ ms) =
      rw (unstarted_move (wire_keylog none).keylog m refl) (moves_unstarted ms)
