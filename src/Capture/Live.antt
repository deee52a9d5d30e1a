-- ===== src/Capture/Live.antt =====
-- internal/capture/live.go: the loop that copies packets into the Writer. What other goroutines do to
-- the Writer meanwhile is a list of its steps.
pub mod Ending
pub mod Threads
pub mod Stopped
mod Tests
use Prim.Native.Nat.{ℕ}
use go_e_bpf_proxy.Base.{Bool, true, false, Option, none, some, ◌>>=◌, List, [], ◌∷◌, Bytes}
use go_e_bpf_proxy.Capture.Packet.{CaptureInfo, Pcapgo}
use go_e_bpf_proxy.Capture.Writer.{Writer, PacketResult, err_stopped, wrote, write_packet}
use go_e_bpf_proxy.Capture.Writer.Step.{Event, run}

-- What ReadPacketData gives: a packet, and the time of its WritePacket; or an error, which is also
-- what Stop's close of the handle makes; or nothing yet. Each with what the Writer goes through from
-- the WritePacket before on, up to its own, up to the error, or until now.
pub data Read : Type 0 where
  got : List Event → CaptureInfo → Bytes → ℕ → Read
  failed under_way : List Event → Read

-- Why the loop is where it is: it waits in the next read, or it has returned.
pub data Where : Type 0 where
  waits read_failed capture_stopped : Where

is_err_stopped : PacketResult → Bool
is_err_stopped err_stopped = true
is_err_stopped (wrote es) = false

module _ (p : Pcapgo) where
  -- The Writer, where the loop is, and the reads that it has not made. `none` is a panic.
  pub copy : Writer → List Read → Option (Writer × Where × List Read)
  unfolding is_err_stopped
  copy w [] = some (w, waits, [])
  copy w (failed others ∷ rs) = do (w1, stops) ← run p w others; some (w1, read_failed, rs)
  copy w (under_way others ∷ rs) = do (w1, stops) ← run p w others; some (w1, waits, rs)
  copy w (got others ci bytes now ∷ rs) = do
    (w1, stops) ← run p w others
    (w2, result, stops') ← write_packet p w1 ci bytes now
    elim (is_err_stopped result) [ true ↦ some (w2, capture_stopped, rs) | false ↦ copy w2 rs ]
