-- ===== src/Capture/Live/Tests.antt =====
-- Two packets and the close of the handle, and a line between the packets.
use go_e_bpf_proxy.Capture.Live.Threads.{
  open_handle, set_capture_length, close_handle, start_live, gone, waits_done, returned, Threads,
  Step, packet, read_fails, hand_on, stop, Reach, start, later, Steps,
}
use go_e_bpf_proxy.Capture.Live.Stopped.{Reach-stopped}
use Prim.Native.Nat.{ℕ}
use go_e_bpf_proxy.Base.{◌≡◌, true, false, List, [], ◌∷◌, ◌≤◌, refl}
use go_e_bpf_proxy.Capture.Writer.{Writer}
use go_e_bpf_proxy.Capture.Writer.Step.{secret}
use go_e_bpf_proxy.Capture.Writer.Tests.{info}
use go_e_bpf_proxy.Capture.Live.{Read, got, failed}
use go_e_bpf_proxy.Capture.Live.Ending.{Ending}

abbrev reads : List Read
reads =
    got [] info (1 ∷ 2 ∷ []) 10
    ∷ got (secret (9 ∷ 9 ∷ []) ∷ []) info (3 ∷ []) 20
    ∷ failed (secret (8 ∷ []) ∷ [])
    ∷ []

-- A read that was under way when Stop closed the handle still hands a packet on.
abbrev late_packet : (t : Threads) × Reach t
late_packet = (
  _,
  later (later (later (later start (packet refl)) (stop refl)) (hand_on refl)) (read_fails refl),
)

Reach-stopped_example :
    (late_packet.0.late_writes ≤ 1)
    × (late_packet.0.stopper ≡ waits_done
        → ((k : ℕ) (u : Threads) → Steps late_packet.0 k u → k ≤ 5)
          × ((u : Threads) × Step late_packet.0 u))
    × (late_packet.0.stopper ≡ returned
        → (late_packet.0.copier ≡ gone) × ((u : Threads) → Step late_packet.0 u → ⊥))
Reach-stopped_example = Reach-stopped late_packet.1

late_packet_counts : late_packet.0.late_writes ≡ 1
late_packet_counts = refl

start_live_closes :
    start_live false true ≡ (open_handle ∷ set_capture_length ∷ close_handle ∷ [], false)
unfolding start_live
start_live_closes = refl
