-- ===== src/App/Sources.antt =====
-- loadConfig of cmd/app/config.go: how the sources of the configuration are merged. koanf, its
-- providers and mapstructure are parameters; the flags are those that fs.Parse leaves.
pub mod Documented
pub mod Effective
pub mod Precedence
pub mod Outcome
mod Table
mod Tests
use go_e_bpf_proxy.Base.{
  ◌+◌, Bool, true, false, ◌&&◌, Option, none, some, List, [], ◌∷◌, ◌++◌, Bytes, codes, bytes_eq,
  leb, if◌then◌else◌,
}
use go_e_bpf_proxy.FilePath.{ext}
use go_e_bpf_proxy.App.Settings.{Datum, text, env_prefix, env_key, Parser, parser_for}

-- A flag of the set after fs.Parse: its Value as a string, and whether the arguments set it.
pub record Flag : Type 0 where
  pub name : Bytes
  pub value : Bytes
  pub is_set : Bool

abbrev pub config_flag : Bytes
config_flag = codes "config"

-- The flags that loadConfig registers beside it, which are the keys of the settings.
abbrev pub setting_names : List Bytes
setting_names =
    codes "cgroup-path"
    ∷ codes "relay-listen"
    ∷ codes "pin-dir"
    ∷ codes "keylog-socket"
    ∷ codes "keylog-path"
    ∷ codes "capture-iface"
    ∷ codes "capture-path"
    ∷ codes "retain"
    ∷ codes "max-bytes"
    ∷ codes "max-age"
    ∷ codes "retention-interval"
    ∷ codes "stats-interval"
    ∷ codes "log-level"
    ∷ []

-- fs.Lookup
unfoldable pub find_flag : Bytes → List Flag → Option Flag
find_flag name [] = none
find_flag name (f ∷ fs) =
    let rest = find_flag name fs in if bytes_eq f.name name then some f else rest

-- What a source gives, key by key: a value, or a key with no value.
abbrev pub Layer : Type 0
Layer = List (Bytes × Option Datum)

-- The koanf instance `k` and the providers. `get` is none for a key that is not there. A provider
-- may fail.
pub record Koanf (K : Type 0) : Type 0 where
  pub empty : K
  pub load : K → Layer → K
  pub get : K → Bytes → Option (Option Datum)
  pub keys : K → List Bytes
  pub read_file : Bytes → Parser → Option Layer
  pub read_env :
      Bytes → (Bytes → Bytes → Bytes × Option Datum) → List (Bytes × Bytes) → Option Layer
  pub read_flags : List Flag → (Bytes → Bytes → Bytes × Option Datum) → K → Option Layer

pub data LoadError : Type 0 where
  bad_flags bad_file bad_env bad_flag_values bad_value : LoadError
  unsupported : (extension : Bytes) → LoadError
  no_value : (key : Bytes) → LoadError

pub data Loaded {ℓ} (C : Type ℓ) : Type ℓ where
  loaded : C → Loaded C
  refused : LoadError → Loaded C

-- A result, or the error that ends loadConfig.
unfoldable pub require {ℓ κ} :
    {A : Type ℓ} {C : Type κ} → Option A → LoadError → (A → Loaded C) → Loaded C
require none e next = refused e
require (some a) e next = next a

-- envKey, the key and the value.
unfoldable pub env_entry : Bytes → Bytes → Bytes × Option Datum
env_entry name value = (env_key name, some (text value))

unfoldable pub skip_config_flag : Bytes → Bytes → Bytes × Option Datum
skip_config_flag key value =
    if bytes_eq key config_flag then ([], none) else (key, some (text value))

-- `k.Get(key) == nil`
unfoldable pub is_nil : Option (Option Datum) → Bool
is_nil none = true
is_nil (some none) = true
is_nil (some (some d)) = false

unfoldable pub first_nil : {K : Type 0} → Koanf K → K → List Bytes → Option Bytes
first_nil api k [] = none
first_nil api k (key ∷ keys) =
    let rest = first_nil api k keys in if is_nil (api.get k key) then some key else rest

-- *path, the value of the flag that names the file.
unfoldable pub config_path : List Flag → Bytes
config_path fs = elim (find_flag config_flag fs) [ none ↦ [] | some f ↦ f.value ]

-- strings.ToLower, on one byte of ASCII.
unfoldable pub to_lower : Bytes → Bytes
to_lower [] = []
to_lower (c ∷ cs) = (if leb b'A' c && leb c b'Z' then c + 32 else c) ∷ to_lower cs

module _ {K : Type 0} (api : Koanf K) where
  unfoldable pub load_file {ℓ} : {C : Type ℓ} → Bytes → (K → Loaded C) → Loaded C
  load_file [] next = next api.empty
  load_file (c ∷ cs) next =
      require (parser_for (to_lower (ext (c ∷ cs)))) (unsupported (ext (c ∷ cs)))
        (λ p. require (api.read_file (c ∷ cs) p) bad_file (λ m. next (api.load api.empty m)))

  unfoldable pub finish {ℓ} : {C : Type ℓ} → (K → Option C) → K → Loaded C
  finish decode k = elim (first_nil api k (api.keys k)) [
    | some key ↦ refused (no_value key)
    | none ↦ require (decode k) bad_value loaded
  ]

  unfoldable pub merge {ℓ} :
      {C : Type ℓ} → (K → Option C) → List Flag → List (Bytes × Bytes) → K → Loaded C
  merge decode fs environ k = require (api.read_env env_prefix env_entry environ) bad_env (λ m.
      require (api.read_flags fs skip_config_flag (api.load k m)) bad_flag_values
        (λ n. finish decode (api.load (api.load k m) n)))

  -- `parsed` is none if fs.Parse failed, and `decode` is UnmarshalWithConf.
  unfoldable pub load_config {ℓ} :
      {C : Type ℓ} → (K → Option C) → Option (List Flag) → List (Bytes × Bytes) → Loaded C
  load_config decode parsed environ =
      require parsed bad_flags (λ fs. load_file (config_path fs) (merge decode fs environ))
