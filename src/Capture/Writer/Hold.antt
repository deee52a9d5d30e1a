-- ===== src/Capture/Writer/Hold.antt =====
-- The hold window: which packets a drain writes.
use Prim.Native.Nat.{ℕ}
use go_e_bpf_proxy.Base.{
  suc, ◌+◌, ◌≤◌, ◌<◌, ◌≡◌, refl, sym, List, [], ◌∷◌, ◌++◌, map, arith, append_assoc, take, drop,
  take-append-drop, All,
}
use native.Mathlib.Decide.{dec_le}
use go_e_bpf_proxy.Capture.Packet.{HeldPacket, flush, Pcapgo}
use go_e_bpf_proxy.Capture.Writer.{Writer, hold_window, ripe, drain}
use go_e_bpf_proxy.Capture.Writer.Step.{packet_call, secret_calls, write_held_lem}

-- The queue is in the order of the clock.
abbrev pub InOrder : List HeldPacket → Type 0
InOrder [] = Unit {0}
InOrder (h ∷ hs) = All (λ k. h.at ≤ k.at) hs × InOrder hs

abbrev pub IsRipe : ℕ → HeldPacket → Type 0
IsRipe now h = h.at + hold_window ≤ now

abbrev pub IsUnripe : ℕ → HeldPacket → Type 0
IsUnripe now h = now < h.at + hold_window

later-IsUnripe :
    (now : ℕ) (h : HeldPacket) (hs : List HeldPacket)
    → IsUnripe now h
    → All (λ k. h.at ≤ k.at) hs
    → All (IsUnripe now) hs
later-IsUnripe now h [] u a = tt
later-IsUnripe now h (k ∷ hs) u a = (omega arith, later-IsUnripe now h hs u a.1)

ripe_old :
    (now : ℕ) (h : HeldPacket) (hs : List HeldPacket)
    → IsRipe now h
    → ripe (h ∷ hs) now ≡ suc (ripe hs now)
unfolding ripe
ripe_old now h hs old = ground arith

ripe_new :
    (now : ℕ) (h : HeldPacket) (hs : List HeldPacket) → IsUnripe now h → ripe (h ∷ hs) now ≡ 0
unfolding ripe
ripe_new now h hs new = ground arith

taken_ripe : (now : ℕ) (hs : List HeldPacket) → All (IsRipe now) (take (ripe hs now) hs)
unfolding ripe
taken_ripe now [] = tt
taken_ripe now (h ∷ hs) = elim (dec_le (h.at + hold_window) now) [
  | yes old ↦ rw (ripe_old now h hs old) (old, taken_ripe now hs)
  | no new ↦ rw (ripe_new now h hs (omega arith)) tt
]

left-IsUnripe :
    (now : ℕ) (hs : List HeldPacket) → InOrder hs → All (IsUnripe now) (drop (ripe hs now) hs)
unfolding ripe
left-IsUnripe now [] o = tt
left-IsUnripe now (h ∷ hs) o = elim (dec_le (h.at + hold_window) now) [
  | yes old ↦ rw (ripe_old now h hs old) (left-IsUnripe now hs o.1)
  | no new ↦
      let u : IsUnripe now h = omega arith in
      rw (ripe_new now h hs u) (u, later-IsUnripe now h hs u o.0)
]

-- A drain at `now` writes the pending secrets first, then exactly the packets that have been held
-- for the window, then flushes: every packet it writes is that old, and every packet that it leaves
-- is not, if the clock did not run backwards between the packets.
pub drain-window :
    (p : Pcapgo) (w : Writer) (now : ℕ)
    → InOrder w.held
    → let w' = (drain p w now).0 in
      (old : List HeldPacket) × (w.held ≡ old ++ w'.held)
      × All (IsRipe now) old
      × All (IsUnripe now) w'.held
      × (w'.calls ≡ w.calls ++ (secret_calls w.pending ++ (map packet_call old ++ flush ∷ [])))
      × (w'.pending ≡ [])
unfolding drain
drain-window p w now o = rw (write_held_lem p) (
  take (ripe w.held now) w.held,
  sym (take-append-drop (ripe w.held now) w.held),
  taken_ripe now w.held,
  left-IsUnripe now w.held o,
  simp append_assoc,
  refl,
)
