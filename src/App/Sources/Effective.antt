-- ===== src/App/Sources/Effective.antt =====
-- loadConfig of cmd/app/config.go: the registered flags, and the source that a setting comes from.
use go_e_bpf_proxy.Base.{
  ◌≡◌, ◌≢◌, refl, sym, ap, ap₂, ◌∙◌, subst, ◌⊎◌, inl, inr, Bool, true, false, not, Option, none,
  some, List, [], ◌∷◌, ◌++◌, Bytes, bytes_eq, bytes_eq_iff, All, In, here, there, arith, Bool-cases,
}
use go_e_bpf_proxy.App.Settings.{Datum, text, env_prefix, env_key}
use go_e_bpf_proxy.App.Sources.{Flag, config_flag, setting_names, find_flag, Layer}
use go_e_bpf_proxy.App.Sources.Documented.{has_dot, lookup, starts_with}

unfoldable pub names : List Flag → List Bytes
names [] = []
names (f ∷ fs) = f.name ∷ names fs

-- The flags are those that loadConfig registers.
abbrev pub IsRegistered : List Flag → Type 0
IsRegistered fs = names fs ≡ setting_names ++ config_flag ∷ []

-- A variable that sets a key.
abbrev pub Sets : Bytes → Bytes → List (Bytes × Bytes) → Type 0
Sets key value environ =
    (name : Bytes) × In (name, value) environ
    × (starts_with env_prefix name ≡ true)
    × (env_key name ≡ key)

abbrev pub NoneSets : Bytes → List (Bytes × Bytes) → Type 0
NoneSets key environ = (value : Bytes) → Sets key value environ → ⊥

-- No variable with the prefix has a dot in its name, which koanf would take for nesting.
abbrev pub DotlessEnv : List (Bytes × Bytes) → Type 0
DotlessEnv environ = (key value : Bytes) → Sets key value environ → has_dot key ≡ false

-- The value of a setting with a flag, by the order of the sources: a flag that the arguments set, an
-- environment variable, the file, which may give the key no value, and the flag's default.
pub data Effective (fs : List Flag) (environ : List (Bytes × Bytes)) (file : Layer) (key : Bytes)
    : Option Datum → Type 0 where
  by_flag :
      (f : Flag)
      → find_flag key fs ≡ some f
      → f.is_set ≡ true
      → Effective fs environ file key (some (text f.value))
  by_env :
      (f : Flag) (value : Bytes)
      → find_flag key fs ≡ some f
      → f.is_set ≡ false
      → Sets key value environ
      → Effective fs environ file key (some (text value))
  by_file :
      (f : Flag) (v : Option Datum)
      → find_flag key fs ≡ some f
      → f.is_set ≡ false
      → NoneSets key environ
      → lookup key file ≡ some v
      → Effective fs environ file key v
  by_default :
      (f : Flag)
      → find_flag key fs ≡ some f
      → f.is_set ≡ false
      → NoneSets key environ
      → lookup key file ≡ none
      → Effective fs environ file key (some (text f.value))

pub All-map {ℓ κ μ} :
    {A : Type ℓ} (P : A → Type κ) (Q : A → Type μ)
    → ((x : A) → P x → Q x)
    → (xs : List A) → All P xs
    → All Q xs
All-map P Q f [] h = tt
All-map P Q f (x ∷ xs) h = (f x h.0, All-map P Q f xs h.1)

lookup_cases :
    (key : Bytes) (e : Bytes × Option Datum) (m : Layer) {v : Option Datum}
    → lookup key (e ∷ m) ≡ some v
    → ((e.0 ≡ key) × (e.1 ≡ v)) ⊎ (lookup key m ≡ some v)
unfolding lookup
lookup_cases key e m h = elim (Bool-cases (bytes_eq e.0 key)) [
  | inl same ↦ let e0 = (bytes_eq_iff e.0 key).0 same in inl (e0, ground arith)
  | inr other ↦ inr (ground arith)
]

pub lookup-In : (key : Bytes) (m : Layer) {v : Option Datum} → lookup key m ≡ some v → In (key, v) m
unfolding lookup
lookup-In key [] h = cc
lookup-In key (e ∷ m) {v} h = elim (lookup_cases key e m h) [
  | inl (same_key, same) ↦
      let both : e ≡ (key, v) = ap₂ (λ k w. (k, w)) same_key same in
      subst (λ x. In x (e ∷ m)) both here
  | inr later ↦ there (lookup-In key m later)
]

pub find_cases :
    (key : Bytes) (g : Flag) (fs : List Flag) {f : Flag}
    → find_flag key (g ∷ fs) ≡ some f
    → ((g.name ≡ key) × (g ≡ f)) ⊎ (find_flag key fs ≡ some f)
unfolding find_flag
find_cases key g fs h = elim (Bool-cases (bytes_eq g.name key)) [
  | inl same ↦ let e = (bytes_eq_iff g.name key).0 same in inl (e, ground arith)
  | inr other ↦ inr (ground arith)
]

pub find_flag-name :
    (key : Bytes) (fs : List Flag) (f : Flag) → find_flag key fs ≡ some f → f.name ≡ key
unfolding find_flag
find_flag-name key [] f h = cc
find_flag-name key (g ∷ fs) f h = elim (find_cases key g fs h) [
  | inl (same_name, same) ↦ ap (λ (x : Flag). x.name) (sym same) ∙ same_name
  | inr later ↦ find_flag-name key fs f later
]

find_flag-All :
    (P : Bytes → Type 0) (key : Bytes) (fs : List Flag) (f : Flag)
    → find_flag key fs ≡ some f
    → All P (names fs)
    → P key
unfolding find_flag names
find_flag-All P key [] f h a = cc
find_flag-All P key (g ∷ fs) f h a = elim (find_cases key g fs h) [
  | inl (same_name, same) ↦ subst P same_name a.0
  | inr later ↦ find_flag-All P key fs f later a.1
]

is_key : Bytes → Bool
is_key [] = false
is_key (c ∷ cs) = not (has_dot (c ∷ cs))

registered-is_key :
    (fs : List Flag) (key : Bytes) (f : Flag)
    → IsRegistered fs
    → find_flag key fs ≡ some f
    → is_key key ≡ true
unfolding has_dot is_key
registered-is_key fs key f reg h =
    find_flag-All (λ n. is_key n ≡ true) key fs f h
      (subst (All (λ n. is_key n ≡ true)) (sym reg) (
        refl,
        (
          refl,
          (
            refl,
            (
              refl,
              (refl, (refl, (refl, (refl, (refl, (refl, (refl, (refl, (refl, (refl, tt)))))))))),
            ),
          ),
        ),
      ))

is_key-dotless : (key : Bytes) → is_key key ≡ true → (has_dot key ≡ false) × (key ≢ [])
unfolding is_key
is_key-dotless [] h = cc
is_key-dotless (c ∷ cs) h = (ground arith, λ e. cc)

-- No registered name has a dot in it or is empty.
pub registered_key :
    (fs : List Flag) (key : Bytes) (f : Flag)
    → IsRegistered fs
    → find_flag key fs ≡ some f
    → (has_dot key ≡ false) × (key ≢ [])
registered_key fs key f reg h = is_key-dotless key (registered-is_key fs key f reg h)
