-- ===== src/Capture/RunName.antt =====
-- The name of a run's capture: CreateRunCapture of internal/capture/pcapng.go. What NewWriter does
-- at a path is a function. `dir`, `stem` and `ext` are the template's parts, the stem without "/".
pub mod Lowest
use Prim.Native.Nat.{ℕ}
use go_e_bpf_proxy.Base.{
  true, false, zero, suc, ◌+◌, ◌/◌, ◌%◌, Bool, List, [], ◌∷◌, ◌++◌, Bytes, ltb, leb, ◌==◌,
  if◌then◌else◌, ℤ, pos, negsuc,
}
use go_e_bpf_proxy.Capture.Retention.{join}

abbrev pub max_run_suffix : ℕ
max_run_suffix = 999

-- What NewWriter returns: a writer, an error that wraps fs.ErrExist, or another error.
pub data Created : Type 0 where
  opened name_taken create_failed : Created

pub data RunCapture : Type 0 where
  created : Bytes → RunCapture
  failed : Bytes → RunCapture
  all_taken : RunCapture

decimal_loop : ℕ → ℕ → Bytes → Bytes
decimal_loop zero n acc = acc
decimal_loop (suc fuel) n acc = elim (ltb n 10) [
  | true ↦ (b'0' + n) ∷ acc
  | false ↦ decimal_loop fuel (n / 10) ((b'0' + n % 10) ∷ acc)
]

-- strconv.Itoa and FormatInt in base 10. A number has no more digits than its value and one.
pub decimal : ℤ → Bytes
unfolding decimal_loop
decimal (pos n) = decimal_loop (n + 1) n []
decimal (negsuc n) = b'-' ∷ decimal_loop (n + 2) (n + 1) []

-- filepath.Join(dir, stem+"-"+epoch)
pub run_base : Bytes → Bytes → ℤ → Bytes
run_base dir stem epoch = join dir (stem ++ b'-' ∷ decimal epoch)

pub run_path : Bytes → Bytes → ℕ → Bytes
run_path base ext n = if leb 1 n then base ++ b'-' ∷ (decimal (pos n) ++ ext) else base ++ ext

-- `for n := 0; n <= maxRunSuffix; n++`, on fuel.
unfoldable pub create_loop : ℕ → Bytes → Bytes → (Bytes → Created) → ℕ → RunCapture
create_loop zero base ext creates n = all_taken
create_loop (suc fuel) base ext creates n = elim (creates (run_path base ext n)) [
  | opened ↦ created (run_path base ext n)
  | create_failed ↦ failed (run_path base ext n)
  | name_taken ↦
      if leb (n + 1) max_run_suffix then create_loop fuel base ext creates (n + 1) else all_taken
]

pub create_run_capture : Bytes → Bytes → Bytes → ℤ → (Bytes → Created) → RunCapture
create_run_capture dir stem ext epoch creates =
    create_loop (max_run_suffix + 1) (run_base dir stem epoch) ext creates 0
