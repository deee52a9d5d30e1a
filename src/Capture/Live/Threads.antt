-- ===== src/Capture/Live/Threads.antt =====
-- internal/capture/live.go: StartLive, and the goroutine of run beside a Stop, a step at a time. A
-- read that begins once the handle is closed fails; one that was under way may still give a packet.
use Prim.Native.Nat.{ℕ}
use go_e_bpf_proxy.Base.{suc, ◌≡◌, Bool, true, false, List, [], ◌∷◌, if◌then◌else◌}

pub data Call : Type 0 where
  open_handle set_capture_length close_handle start_run : Call

-- The calls of StartLive, and whether it returns a Live, by which of its calls fail.
unfoldable pub start_live : (open_fails set_fails : Bool) → List Call × Bool
start_live true set_fails = (open_handle ∷ [], false)
start_live false true = (open_handle ∷ set_capture_length ∷ close_handle ∷ [], false)
start_live false false = (open_handle ∷ set_capture_length ∷ start_run ∷ [], true)

-- Where run stands: in a read, which began with the handle open or not, before WritePacket, before
-- its deferred close of `done`, and behind that.
pub data Copier : Type 0 where
  reading : (began_open : Bool) → Copier
  handing ending gone : Copier

-- Where Stop stands: not called, waiting for `done`, and returned.
pub data Stopper : Type 0 where
  not_called waits_done returned : Stopper

-- `writes` counts the calls of WritePacket, and `late_writes` those with the handle closed.
pub record Threads : Type 0 where
  pub copier : Copier
  pub stopper : Stopper
  pub handle_open : Bool
  pub writes : ℕ
  pub late_writes : ℕ

abbrev pub started : Threads
started = record {
  copier = reading true;
  stopper = not_called;
  handle_open = true;
  writes = 0;
  late_writes = 0;
}

-- The counters after one more WritePacket.
abbrev pub written : Threads → Copier → Threads
written t c = record t {
  copier = c;
  writes = suc t.writes;
  late_writes = if t.handle_open then t.late_writes else suc t.late_writes;
}

pub data Step (t : Threads) : Threads → Type 0 where
  packet : t.copier ≡ reading true → Step t (record t { copier = handing })
  read_fails : {b : Bool} → t.copier ≡ reading b → Step t (record t { copier = ending })
  hand_on : t.copier ≡ handing → Step t (written t (reading t.handle_open))
  hand_last : t.copier ≡ handing → Step t (written t ending)
  close_done : t.copier ≡ ending → Step t (record t { copier = gone })
  stop : t.stopper ≡ not_called → Step t (record t { stopper = waits_done; handle_open = false })
  stop_returns : t.stopper ≡ waits_done → t.copier ≡ gone → Step t (record t { stopper = returned })

pub data Reach : Threads → Type 0 where
  start : Reach started
  later : {s t : Threads} → Reach s → Step s t → Reach t

-- So many steps.
pub data Steps (s : Threads) : ℕ → Threads → Type 0 where
  none_yet : Steps s 0 s
  one_more : {n : ℕ} {t u : Threads} → Steps s n t → Step t u → Steps s (suc n) u
