-- ===== src/App/Settings.antt =====
-- cmd/app/config.go: the checks on a setting's value, its key in the environment and the parser of the
-- config file. The merging of the sources is koanf's and mapstructure's.
pub mod Exact
pub mod EnvKey
use Prim.Native.Nat.{ℕ}
use go_e_bpf_proxy.Base.{
  ◌+◌, ◌*◌, ◌%◌, ◌^◌, ◌-◌, Bool, true, false, not, ◌&&◌, ◌||◌, Option, none, some, List, [], ◌∷◌,
  ◌++◌, Bytes, codes, bytes_eq, ltb, leb, ◌==◌, if◌then◌else◌, ℤ, pos, negsuc,
}

-- A float64. `finite true m k` is -m / 2 ^ k, and -0 if m is 0.
pub data Float64 : Type 0 where
  nan : Float64
  infinite : Bool → Float64
  finite : Bool → ℕ → ℕ → Float64

-- A number as a source decodes it.
pub data Number : Type 0 where
  int : ℤ → Number
  uint : ℕ → Number
  float : Float64 → Number

-- What a decode hook is handed, after the hooks before it: a string, bool or number as a source
-- decodes it, the time.Duration or *slog.Level that a hook before made of a string, a slog.Level, or
-- another value that is no number.
pub data Datum : Type 0 where
  text : Bytes → Datum
  truth : Bool → Datum
  number : Number → Datum
  duration : ℤ → Datum
  level_pointer : Datum
  level : ℤ → Datum
  other : Datum

-- The type of a setting. `duration_setting` is also of the kind int64.
pub data Setting : Type 0 where
  duration_setting int64_setting level_setting string_setting bool_setting : Setting

pub data NumberError : Type 0 where
  no_unit not_whole out_of_range : NumberError

-- f >= -(1<<63), f < 1<<63 and f == math.Trunc(f)
pub is_int64 : Float64 → Bool
is_int64 nan = false
is_int64 (infinite negative) = false
is_int64 (finite negative m k) =
    (m % 2 ^ k == 0) && (if negative then leb m (2 ^ 63 * 2 ^ k) else ltb m (2 ^ 63 * 2 ^ k))

is_zero_float : Float64 → Bool
is_zero_float (finite negative m k) = m == 0
is_zero_float f = false

-- v.IsZero()
is_zero : Number → Bool
unfolding is_zero_float
is_zero (int (pos n)) = n == 0
is_zero (int (negsuc n)) = false
is_zero (uint n) = n == 0
is_zero (float f) = is_zero_float f

is_duration : Setting → Bool
is_duration duration_setting = true
is_duration s = false

-- to.Kind() == reflect.Int64
is_int64_kind : Setting → Bool
is_int64_kind duration_setting = true
is_int64_kind int64_setting = true
is_int64_kind s = false

-- The cases that follow the one on a duration.
range_error : Bool → Number → Option NumberError
range_error int64_kind (int n) = none
range_error int64_kind (float f) = if int64_kind && not (is_int64 f) then some not_whole else none
range_error int64_kind (uint n) =
    if int64_kind && ltb (2 ^ 63 - 1) n then some out_of_range else none

pub strict_numbers : Setting → Datum → Option NumberError
unfolding is_zero is_duration is_int64_kind range_error
strict_numbers to (number n) =
    if is_duration to && not (is_zero n) then some no_unit else range_error (is_int64_kind to) n
strict_numbers to (level n) = if is_duration to && not (is_zero (int n)) then some no_unit else none
strict_numbers to d = none

is_level : Setting → Bool
is_level level_setting = true
is_level s = false

-- Whether levelByName lets a value through.
pub level_by_name : Setting → Datum → Bool
unfolding is_level
level_by_name to (level n) = true
level_by_name to level_pointer = true
level_by_name to d = not (is_level to)

abbrev pub env_prefix : Bytes
env_prefix = codes "GOEBPF_SIDECAR_"

-- strings.TrimPrefix, the prefix first; `whole` is what is left if it does not match.
unfoldable pub trim_prefix : Bytes → Bytes → Bytes → Bytes
trim_prefix whole [] s = s
trim_prefix whole (p ∷ ps) [] = whole
trim_prefix whole (p ∷ ps) (c ∷ cs) = if p == c then trim_prefix whole ps cs else whole

-- strings.ToLower and strings.ReplaceAll of "_" by "-", on one byte of ASCII.
unfoldable pub key_byte : ℕ → ℕ
key_byte c = if leb b'A' c && leb c b'Z' then c + 32 else if c == b'_' then b'-' else c

unfoldable pub key_bytes : Bytes → Bytes
key_bytes [] = []
key_bytes (c ∷ cs) = key_byte c ∷ key_bytes cs

-- The key that envKey gives a variable with a name in ASCII.
unfoldable pub env_key : Bytes → Bytes
env_key name = key_bytes (trim_prefix name env_prefix name)

pub data Parser : Type 0 where
  yaml toml json : Parser

-- The parser for a lower-case extension.
unfoldable pub parser_for : Bytes → Option Parser
parser_for ext =
    if bytes_eq ext (codes ".yaml") || bytes_eq ext (codes ".yml")
    then some yaml
    else if bytes_eq ext (codes ".toml")
    then some toml
    else if bytes_eq ext (codes ".json")
    then some json
    else none
