-- ===== src/App/Sources/Outcome.antt =====
-- loadConfig of cmd/app/config.go: how it ends.
use go_e_bpf_proxy.Base.{
  ◌≡◌, ◌≢◌, refl, sym, ap, ◌∙◌, subst, inl, inr, Bool, true, false, not, ◌&&◌, ◌||◌, Option, none,
  some, List, [], ◌∷◌, ◌++◌, Bytes, bytes_eq, All, In, here, there, arith, Bool-cases, Option-cases,
}
use go_e_bpf_proxy.FilePath.{ext}
use go_e_bpf_proxy.App.Settings.{Datum, Parser, env_prefix, parser_for}
use go_e_bpf_proxy.App.Sources.{
  Flag, config_flag, setting_names, find_flag, Layer, Koanf, LoadError, bad_file, bad_env,
  bad_flag_values, bad_value, unsupported, no_value, Loaded, loaded, refused, require, env_entry,
  skip_config_flag, is_nil, first_nil, config_path, to_lower, load_file, finish, merge, load_config,
}
use go_e_bpf_proxy.App.Sources.Documented.{has_dot, lookup, Documented}
use go_e_bpf_proxy.App.Sources.Effective.{names, IsRegistered, DotlessEnv, Effective, All-map}
use go_e_bpf_proxy.App.Sources.Precedence.{merged-Effective}

-- What `k` holds for a setting is the value of its first source.
abbrev pub Settles :
    {K : Type 0} → Koanf K → List Flag → List (Bytes × Bytes) → Layer → K → Bytes → Type 0
Settles api fs environ file k name =
    (v : Option Datum) × (api.get k name ≡ some v) × Effective fs environ file name v

abbrev pub Valued :
    {K : Type 0} → Koanf K → List Flag → List (Bytes × Bytes) → Layer → K → Bytes → Type 0
Valued api fs environ file k name =
    (d : Datum) × (api.get k name ≡ some (some d)) × Effective fs environ file name (some d)

-- The layer that the file gives: none of it without a path, or what the parser for the path's
-- extension reads.
pub data FileLayer {K : Type 0} (api : Koanf K) (path : Bytes) : Layer → Type 0 where
  no_file : path ≡ [] → FileLayer api path []
  from_file :
      {file : Layer}
      → path ≢ []
      → ((p : Parser) × (parser_for (to_lower (ext path)) ≡ some p)
          × (api.read_file path p ≡ some file))
      → FileLayer api path file

-- An error before the sources are merged, with what failed.
pub data SourceFails {K : Type 0} (api : Koanf K) (fs : List Flag) (environ : List (Bytes × Bytes))
    : LoadError → Type 0 where
  no_parser :
      parser_for (to_lower (ext (config_path fs))) ≡ none
      → SourceFails api fs environ (unsupported (ext (config_path fs)))
  file_fails :
      (p : Parser) → api.read_file (config_path fs) p ≡ none → SourceFails api fs environ bad_file
  env_fails : api.read_env env_prefix env_entry environ ≡ none → SourceFails api fs environ bad_env
  flags_fail :
      (k : K)
      → api.read_flags fs skip_config_flag k ≡ none
      → SourceFails api fs environ bad_flag_values

pub data Ended {ℓ} {K : Type 0} {C : Type ℓ} (api : Koanf K) (decode : K → Option C)
    (fs : List Flag) (environ : List (Bytes × Bytes)) : Loaded C → Type ℓ where
  settled :
      (file : Layer) (k : K) (c : C)
      → FileLayer api (config_path fs) file
      → All
          (λ name.
            (d : Datum) × (api.get k name ≡ some (some d))
            × Effective fs environ file name (some d))
          setting_names
      → decode k ≡ some c
      → Ended api decode fs environ (loaded c)
  undecoded :
      (file : Layer) (k : K)
      → FileLayer api (config_path fs) file
      → All (Valued api fs environ file k) setting_names
      → decode k ≡ none
      → Ended api decode fs environ (refused bad_value)
  valueless :
      (file : Layer) (k : K) (key : Bytes)
      → FileLayer api (config_path fs) file
      → All (Settles api fs environ file k) setting_names
      → is_nil (api.get k key) ≡ true
      → Ended api decode fs environ (refused (no_value key))
  source_fails :
      (e : LoadError) → SourceFails api fs environ e → Ended api decode fs environ (refused e)

listed : Bytes → List Bytes → Bool
listed name [] = false
listed name (x ∷ xs) = bytes_eq x name || listed name xs

all_listed : List Bytes → List Bytes → Bool
all_listed [] ys = true
all_listed (x ∷ xs) ys = (not (bytes_eq x config_flag) && listed x ys) && all_listed xs ys

listed_found :
    (name : Bytes) (fs : List Flag)
    → listed name (names fs) ≡ true
    → (f : Flag) × (find_flag name fs ≡ some f)
unfolding listed names find_flag
listed_found name [] h = cc
listed_found name (f ∷ fs) h = elim (Bool-cases (bytes_eq f.name name)) [
  | inl same ↦ (f, rw same refl)
  | inr other ↦ let (g, found) = listed_found name fs (ground arith) in (g, rw other found)
]

each_found :
    (fs : List Flag) (xs : List Bytes)
    → all_listed xs (names fs) ≡ true
    → All
        (λ name. (f : Flag) × (find_flag name fs ≡ some f) × (bytes_eq name config_flag ≡ false))
        xs
unfolding all_listed
each_found fs [] h = tt
each_found fs (x ∷ xs) h =
    let (f, found) = listed_found x fs (ground arith) in
    ((f, found, ground arith), each_found fs xs (ground arith))

all_there : all_listed setting_names (setting_names ++ config_flag ∷ []) ≡ true
unfolding all_listed listed
all_there = refl

settings_found :
    (fs : List Flag)
    → IsRegistered fs
    → All
        (λ name. (f : Flag) × (find_flag name fs ≡ some f) × (bytes_eq name config_flag ≡ false))
        setting_names
settings_found fs reg =
    each_found fs setting_names
      (subst (λ ns. all_listed setting_names ns ≡ true) (sym reg) all_there)

module _ {K : Type 0} {api : Koanf K} (doc : Documented api) (fs : List Flag)
    (environ : List (Bytes × Bytes)) where
  first_nil-some :
      (k : K) (keys : List Bytes) {key : Bytes}
      → first_nil api k keys ≡ some key
      → is_nil (api.get k key) ≡ true
  unfolding first_nil
  first_nil-some k [] h = cc
  first_nil-some k (x ∷ xs) {key = key} h = elim (Bool-cases (is_nil (api.get k x))) [
    | inl nil ↦
        let same : x ≡ key = ground arith in subst (λ y. is_nil (api.get k y) ≡ true) same nil
    | inr other ↦ first_nil-some k xs (ground arith)
  ]

  first_nil-none :
      (k : K) (keys : List Bytes) {key : Bytes}
      → first_nil api k keys ≡ none
      → In key keys
      → is_nil (api.get k key) ≡ false
  unfolding first_nil
  first_nil-none k [] h m = elim m [ ]
  first_nil-none k (x ∷ xs) h here = ground arith
  first_nil-none k (x ∷ xs) h (there m) = first_nil-none k xs (ground arith) m

  Settles-Valued :
      (file : Layer) (k : K) (name : Bytes)
      → first_nil api k (api.keys k) ≡ none
      → Settles api fs environ file k name
      → Valued api fs environ file k name
  unfolding is_nil
  Settles-Valued file k name h (none, got, effective) =
      let filled = first_nil-none k (api.keys k) h (doc.lists_nil k name got) in
      let nil : is_nil (api.get k name) ≡ true = ap is_nil got in absurd (ground arith)
  Settles-Valued file k name h (some d, got, effective) = (d, got, effective)

  module _ {ℓ} {C : Type ℓ} (decode : K → Option C) (file : Layer)
      (from : FileLayer api (config_path fs) file) where
    finish-Ended :
        (k : K)
        → All (Settles api fs environ file k) setting_names
        → Ended api decode fs environ (finish api decode k)
    unfolding finish require
    finish-Ended k settles = elim (Option-cases (first_nil api k (api.keys k))) [
      | inr (key, h) ↦
          rw (h, finish) (valueless file k key from settles (first_nil-some k (api.keys k) h))
      | inl h ↦
          let valued =
            All-map (Settles api fs environ file k) (Valued api fs environ file k)
              (λ name s. Settles-Valued file k name h s) setting_names settles in
          elim (Option-cases (decode k)) [
            | inl fails ↦ rw (h, fails, finish) (undecoded file k from valued fails)
            | inr (c, works) ↦ rw (h, works, finish) (settled file k c from valued works)
          ]
    ]

    merge-Ended :
        (k : K)
        → IsRegistered fs
        → DotlessEnv environ
        → ((key : Bytes) → has_dot key ≡ false → api.get k key ≡ lookup key file)
        → Ended api decode fs environ (merge api decode fs environ k)
    unfolding merge require
    merge-Ended k reg dotless holds =
        elim (Option-cases (api.read_env env_prefix env_entry environ)) [
          | inl fails ↦ rw (fails, merge) (source_fails bad_env (env_fails fails))
          | inr (m, hm) ↦ elim (Option-cases (api.read_flags fs skip_config_flag (api.load k m))) [
            | inl fails ↦
                rw (hm, fails, merge)
                  (source_fails bad_flag_values (flags_fail (api.load k m) fails))
            | inr (n, hn) ↦
                rw (hm, hn, merge)
                  (finish-Ended (api.load (api.load k m) n) (
                    All-map
                      (λ name.
                        (f : Flag) × (find_flag name fs ≡ some f)
                        × (bytes_eq name config_flag ≡ false))
                      (Settles api fs environ file (api.load (api.load k m) n))
                      (λ name found.
                        merged-Effective doc fs environ file k m n reg dotless holds hm hn name
                          found.0 found.1 found.2)
                      setting_names (settings_found fs reg)))
          ]
        ]

module _ {ℓ} {K : Type 0} {C : Type ℓ} {api : Koanf K} (doc : Documented api)
    (decode : K → Option C) (fs : List Flag) (environ : List (Bytes × Bytes))
    (reg : IsRegistered fs) (dotless : DotlessEnv environ) where
  load_file-Ended :
      (path : Bytes)
      → config_path fs ≡ path
      → Ended api decode fs environ (load_file api path (merge api decode fs environ))
  unfolding load_file require lookup
  load_file-Ended [] e =
      merge-Ended doc fs environ decode [] (no_file e) api.empty reg dotless
        (λ key plain. doc.get_empty key)
  load_file-Ended (c ∷ cs) e = elim (Option-cases (parser_for (to_lower (ext (c ∷ cs))))) [
    | inl fails ↦
        rw (fails, load_file)
          (subst (λ p. Ended api decode fs environ (refused (unsupported (ext p)))) e
            (source_fails _ (no_parser (ap (λ p. parser_for (to_lower (ext p))) e ∙ fails))))
    | inr (p, hp) ↦ elim (Option-cases (api.read_file (c ∷ cs) p)) [
      | inl fails ↦
          rw (hp, fails, load_file)
            (source_fails bad_file (file_fails p (ap (λ q. api.read_file q p) e ∙ fails)))
      | inr (m, hm) ↦
          rw (hp, hm, load_file)
            (merge-Ended doc fs environ decode m (given p m hp hm) (api.load api.empty m) reg
              dotless (doc.get_first m))
    ]
  ]
    where
      given :
          (p : Parser) (m : Layer)
          → parser_for (to_lower (ext (c ∷ cs))) ≡ some p
          → api.read_file (c ∷ cs) p ≡ some m
          → FileLayer api (config_path fs) m
      given p m hp hm =
          subst (λ path. FileLayer api path m) (sym e) (from_file (λ no. cc) (p, hp, hm))

  -- How loadConfig ends once fs.Parse has succeeded, with koanf and its providers as documented and no
  -- dot in a variable's name: with the decoded configuration, each setting having a value, and that
  -- of its first source in the order set flag, environment, file, default; with what the decoder
  -- refuses, of such values; with a key that has no value; or with the error of the parser's choice,
  -- the file, the environment or the flags.
  pub load_config-Ended : Ended api decode fs environ (load_config api decode (some fs) environ)
  unfolding load_config require
  load_config-Ended = load_file-Ended (config_path fs) refl
