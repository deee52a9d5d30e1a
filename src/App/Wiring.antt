-- ===== src/App/Wiring.antt =====
-- The keylog and the capture of a run, as startKeylog of cmd/app/app.go joins them: the capture's
-- state is the keylog's gate, and the Writer's AddSecret its sink.
pub mod Mirror
pub mod Late
mod Tests
use Prim.Native.Nat.{ℕ}
use mathlib.Core.Option
use go_e_bpf_proxy.Base.{
  Bool, true, false, Option, none, some, ◌>>=◌, List, [], ◌∷◌, length, drop, Bytes, if◌then◌else◌,
}
use go_e_bpf_proxy.Capture.Packet.{
  CaptureInfo, State, active, stopped_max_bytes, not_started_max_bytes, Pcapgo,
}
use go_e_bpf_proxy.Capture.Retention.{Retention, Listing, Removal, room, enforce}
use go_e_bpf_proxy.Capture.Writer.{Writer, state, set_room, add_secret, tick}
use go_e_bpf_proxy.Capture.Writer.Step.{step, packet}
use go_e_bpf_proxy.Keylog.Append.{KeylogWriter, append, opened}

-- `capture` is the App's capW, `none` for nil.
pub record Wired : Type 0 where
  pub keylog : KeylogWriter
  pub capture : Option Writer

pub capture_state : Option Writer → State
capture_state none = not_started_max_bytes
capture_state (some w) = state w

is_active : State → Bool
is_active active = true
is_active stopped_max_bytes = false
is_active not_started_max_bytes = false

pub capture_active : Option Writer → Bool
unfolding is_active
capture_active c = is_active (capture_state c)

-- Whether startKeylog hands NewSocketServer a sink.
abbrev has_sink : Option Writer → Bool
has_sink none = false
has_sink (some w) = true

-- startKeylog, with the writer that NewSocketServer opens.
pub wire_keylog : Option Writer → Wired
wire_keylog c = record { keylog = opened (has_sink c) true; capture = c }

-- The paths that the age pass asks to delete, and the capture. `before` is the directory that the
-- pass finds, `after` the one that Room finds.
pub enforce_retention :
    Retention
    → Listing
    → ℕ
    → (Bytes → Removal)
    → Listing
    → Option Writer
    → List Bytes × Option Writer
enforce_retention r before now removes after c = (
  (enforce r before now removes).0.0,
  Option.map (λ w. if (room r after).1 then set_room w (room r after).0 else w) c,
)

-- What comes to the capture from elsewhere than the keylog: a packet that Live hands on, a firing of
-- the ticker of drainPeriodically, and one of the ticker of enforceRetentionPeriodically.
pub data Work : Type 0 where
  packet_read : CaptureInfo → Bytes → ℕ → Work
  drained : ℕ → Work
  retention_due : Retention → Listing → ℕ → (Bytes → Removal) → Listing → Work

-- A work, or a line that comes to Append: what comes to the capture between the gate and the sink,
-- and whether the write to the keylog fails.
pub data Move : Type 0 where
  works : Work → Move
  appends : Bytes → List Work → Bool → Move

module _ (p : Pcapgo) where
  -- `none` is a panic.
  pub work : Option Writer → Work → Option (Option Writer)
  work none (packet_read ci bytes now) = some none
  work (some w) (packet_read ci bytes now) =
      Option.map (λ out. some out.0) (step p w (packet ci bytes now))
  work c (drained now) = some (Option.map (λ w. tick p w now) c)
  work c (retention_due r before now removes after) =
      some (enforce_retention r before now removes after c).1

  pub work_all : Option Writer → List Work → Option (Option Writer)
  work_all c [] = some c
  work_all c (k ∷ ks) = do c' ← work c k; work_all c' ks

  -- The calls of AddSecret for the lines that the keylog hands to its sink.
  pub sink : Option Writer → List Bytes → Option Writer
  sink c [] = c
  sink c (l ∷ ls) = sink (Option.map (λ w. (add_secret w l).0) c) ls

  -- Append, with its gate and its sink.
  pub append_line : Wired → Bytes → List Work → Bool → Option Wired
  append_line a line meanwhile fails =
      let k = (append a.keylog line (capture_active a.capture) fails).0 in
      Option.map (λ c. record { keylog = k; capture = sink c (drop (length a.keylog.sunk) k.sunk) })
        (work_all a.capture meanwhile)

  pub move : Wired → Move → Option Wired
  move a (works k) = Option.map (λ c. record a { capture = c }) (work a.capture k)
  move a (appends line meanwhile fails) = append_line a line meanwhile fails

  pub moves : Wired → List Move → Option Wired
  moves a [] = some a
  moves a (m ∷ ms) = do a' ← move a m; moves a' ms
