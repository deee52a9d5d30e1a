-- ===== src/App/Sources/Documented.antt =====
-- What koanf and its providers document, as far as loadConfig relies on it.
use go_e_bpf_proxy.Base.{
  ◌≡◌, ◌≢◌, ◌⊎◌, Bool, true, false, Option, none, some, List, [], ◌∷◌, Bytes, ◌==◌, ◌||◌, All, In,
  if◌then◌else◌,
}
use go_e_bpf_proxy.Base.{bytes_eq}
use go_e_bpf_proxy.App.Settings.{Datum, text}
use go_e_bpf_proxy.App.Sources.{Flag, find_flag, Layer, Koanf}

-- koanf splits a key at its dots.
unfoldable pub has_dot : Bytes → Bool
has_dot [] = false
has_dot (c ∷ cs) = (c == b'.') || has_dot cs

unfoldable pub lookup : Bytes → Layer → Option (Option Datum)
lookup key [] = none
lookup key ((name, v) ∷ m) = let rest = lookup key m in if bytes_eq name key then some v else rest

unfoldable pub or_else {ℓ} : {A : Type ℓ} → Option A → Option A → Option A
or_else none b = b
or_else (some a) b = some a

unfoldable pub starts_with : Bytes → Bytes → Bool
starts_with [] s = true
starts_with (p ∷ ps) [] = false
starts_with (p ∷ ps) (c ∷ cs) = if p == c then starts_with ps cs else false

-- An entry of the kind that the environment and the flags give: no nesting, and a string.
abbrev pub IsPlain : Bytes × Option Datum → Type 0
IsPlain e = (has_dot e.0 ≡ false) × ((s : Bytes) × (e.1 ≡ some (text s)))

abbrev pub Transform : Type 0
Transform = Bytes → Bytes → Bytes × Option Datum

-- An entry that a variable with the prefix gives.
pub record FromVar (prefix : Bytes) (f : Transform) (environ : List (Bytes × Bytes))
    (e : Bytes × Option Datum) : Type 0 where
  pub name : Bytes
  pub value : Bytes
  pub member : In (name, value) environ
  pub prefixed : starts_with prefix name ≡ true
  pub same : f name value ≡ e

-- An entry that a flag gives: a flag that is set, or one whose key has no value yet.
pub record FromFlag (fs : List Flag) (f : Transform) (old : Bytes → Option (Option Datum))
    (e : Bytes × Option Datum) : Type 0 where
  pub flag : Flag
  pub found : find_flag flag.name fs ≡ some flag
  pub same : f flag.name flag.value ≡ e
  pub has_key : e.0 ≢ []
  pub wanted : (flag.is_set ≡ true) ⊎ (old e.0 ≡ none)

pub record Documented {K : Type 0} (api : Koanf K) : Type 0 where
  pub get_empty : (key : Bytes) → api.get api.empty key ≡ none
  pub get_first :
      (m : Layer) (key : Bytes)
      → has_dot key ≡ false
      → api.get (api.load api.empty m) key ≡ lookup key m
  pub get_load :
      (k : K) (m : Layer) (key : Bytes)
      → All IsPlain m
      → has_dot key ≡ false
      → api.get (api.load k m) key ≡ or_else (lookup key m) (api.get k key)
  pub lists_nil : (k : K) (key : Bytes) → api.get k key ≡ some none → In key (api.keys k)
  pub env_entries :
      (prefix : Bytes) (f : Transform) (environ : List (Bytes × Bytes)) {m : Layer}
      → api.read_env prefix f environ ≡ some m
      → All (FromVar prefix f environ) m
  pub env_all :
      (prefix : Bytes) (f : Transform) (environ : List (Bytes × Bytes)) {m : Layer}
      → api.read_env prefix f environ ≡ some m
      → {e : Bytes × Option Datum} → FromVar prefix f environ e
      → e.0 ≢ []
      → lookup e.0 m ≢ none
  pub flag_entries :
      (fs : List Flag) (f : Transform) (k : K) {m : Layer}
      → api.read_flags fs f k ≡ some m
      → All (FromFlag fs f (api.get k)) m
  pub flag_all :
      (fs : List Flag) (f : Transform) (k : K) {m : Layer}
      → api.read_flags fs f k ≡ some m
      → {e : Bytes × Option Datum} → FromFlag fs f (api.get k) e
      → lookup e.0 m ≢ none
