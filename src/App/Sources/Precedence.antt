-- ===== src/App/Sources/Precedence.antt =====
-- loadConfig of cmd/app/config.go: that what koanf has merged follows the order of the sources.
use go_e_bpf_proxy.Base.{
  ◌≡◌, ◌≢◌, refl, sym, ap, ◌∙◌, subst, ◌⊎◌, inl, inr, true, false, Option, none, some, List, [],
  Bytes, bytes_eq, All-In, Bool-cases, Option-cases,
}
use go_e_bpf_proxy.App.Settings.{Datum, text, env_prefix}
use go_e_bpf_proxy.App.Sources.{
  Flag, config_flag, find_flag, Layer, Koanf, env_entry, skip_config_flag,
}
use go_e_bpf_proxy.App.Sources.Documented.{
  has_dot, lookup, or_else, IsPlain, FromVar, FromFlag, Documented,
}
use go_e_bpf_proxy.App.Sources.Effective.{
  IsRegistered, Sets, NoneSets, DotlessEnv, Effective, by_flag, by_env, by_file, by_default,
  All-map, lookup-In, find_flag-name, registered_key,
}

env_entry-IsPlain :
    {environ : List (Bytes × Bytes)} (e : Bytes × Option Datum)
    → DotlessEnv environ
    → FromVar env_prefix env_entry environ e
    → IsPlain e
unfolding env_entry
env_entry-IsPlain e dotless v = (
  dotless e.0 v.value (v.name, v.member, v.prefixed, ap (λ x. x.0) v.same),
  (v.value, sym (ap (λ x. x.1) v.same)),
)

-- What a flag gives, but for the one that names the file.
skip_cases :
    (name value : Bytes) (e : Bytes × Option Datum)
    → skip_config_flag name value ≡ e
    → e.0 ≢ []
    → (name ≡ e.0) × (e.1 ≡ some (text value))
unfolding skip_config_flag
skip_cases name value e h ne = elim (Bool-cases (bytes_eq name config_flag)) [
  | inl skipped ↦
      let gone : skip_config_flag name value ≡ ([], none) = rw skipped refl in
      absurd (ne (ap (λ x. x.0) (sym h ∙ gone)))
  | inr kept ↦
      let whole : skip_config_flag name value ≡ (name, some (text value)) = rw kept refl in
      (ap (λ x. x.0) (sym whole ∙ h), ap (λ x. x.1) (sym h ∙ whole))
]

flag_cases :
    (fs : List Flag) (old : Bytes → Option (Option Datum)) (e : Bytes × Option Datum)
    → FromFlag fs skip_config_flag old e
    → (f : Flag) × (find_flag e.0 fs ≡ some f)
      × (e.1 ≡ some (text f.value))
      × ((f.is_set ≡ true) ⊎ (old e.0 ≡ none))
flag_cases fs old e v =
    let (same_name, same) = skip_cases v.flag.name v.flag.value e v.same v.has_key in
    (v.flag, subst (λ n. find_flag n fs ≡ some v.flag) same_name v.found, same, v.wanted)

flag-IsPlain :
    (fs : List Flag) (old : Bytes → Option (Option Datum)) (e : Bytes × Option Datum)
    → IsRegistered fs
    → FromFlag fs skip_config_flag old e
    → IsPlain e
flag-IsPlain fs old e reg v =
    let (f, found, same, wanted) = flag_cases fs old e v in
    ((registered_key fs e.0 f reg found).0, (f.value, same))

or_else-none {ℓ} : {A : Type ℓ} (a b : Option A) → or_else a b ≡ none → (a ≡ none) × (b ≡ none)
unfolding or_else
or_else-none none b h = (refl, h)
or_else-none (some a) b h = cc

module _ {K : Type 0} {api : Koanf K} (doc : Documented api) (fs : List Flag)
    (environ : List (Bytes × Bytes)) (file : Layer) (k : K) (m n : Layer) (reg : IsRegistered fs)
    (dotless : DotlessEnv environ)
    (from_file : (key : Bytes) → has_dot key ≡ false → api.get k key ≡ lookup key file)
    (from_env : api.read_env env_prefix env_entry environ ≡ some m)
    (from_flags : api.read_flags fs skip_config_flag (api.load k m) ≡ some n) where
  get_env :
      (key : Bytes)
      → has_dot key ≡ false
      → api.get (api.load k m) key ≡ or_else (lookup key m) (lookup key file)
  get_env key plain =
      doc.get_load k m key
        (All-map (FromVar env_prefix env_entry environ) IsPlain
          (λ e v. env_entry-IsPlain e dotless v) m
          (doc.env_entries env_prefix env_entry environ from_env))
        plain
      ∙ ap (or_else (lookup key m)) (from_file key plain)

  get_flags :
      (key : Bytes)
      → has_dot key ≡ false
      → api.get (api.load (api.load k m) n) key
        ≡ or_else (lookup key n) (or_else (lookup key m) (lookup key file))
  get_flags key plain =
      doc.get_load (api.load k m) n key
        (All-map (FromFlag fs skip_config_flag (api.get (api.load k m))) IsPlain
          (λ e v. flag-IsPlain fs (api.get (api.load k m)) e reg v) n
          (doc.flag_entries fs skip_config_flag (api.load k m) from_flags))
        plain
      ∙ ap (or_else (lookup key n)) (get_env key plain)

  env_some :
      (key : Bytes) {v : Option Datum}
      → lookup key m ≡ some v
      → (value : Bytes) × (v ≡ some (text value)) × Sets key value environ
  unfolding env_entry
  env_some key {v} h =
      let from =
        All-In (FromVar env_prefix env_entry environ) m
          (doc.env_entries env_prefix env_entry environ from_env) (lookup-In key m h) in
      (
        from.value,
        sym (ap (λ x. x.1) from.same),
        (from.name, from.member, from.prefixed, ap (λ x. x.0) from.same),
      )

  env_none : (key : Bytes) → key ≢ [] → lookup key m ≡ none → NoneSets key environ
  unfolding env_entry
  env_none key ne h value (name, member, prefixed, same) =
      doc.env_all env_prefix env_entry environ from_env {e = (key, some (text value))}
        (record {
          name = name;
          value = value;
          member = member;
          prefixed = prefixed;
          same = ap (λ x. (x, some (text value))) same;
        })
        ne h

  flag_kept :
      (key : Bytes) (f : Flag)
      → find_flag key fs ≡ some f
      → bytes_eq key config_flag ≡ false
      → lookup key n ≡ none
      → ¬ ((f.is_set ≡ true) ⊎ (api.get (api.load k m) key ≡ none))
  unfolding skip_config_flag
  flag_kept key f found kept h wanted =
      let name_is = find_flag-name key fs f found in
      doc.flag_all fs skip_config_flag (api.load k m) from_flags {e = (key, some (text f.value))}
        (record {
          flag = f;
          found = subst (λ x. find_flag x fs ≡ some f) (sym name_is) found;
          same = ap (λ x. skip_config_flag x f.value) name_is ∙ rw kept refl;
          has_key = (registered_key fs key f reg found).1;
          wanted = wanted;
        })
        h

  below_flags :
      (key : Bytes) (f : Flag) (v : Option Datum)
      → find_flag key fs ≡ some f
      → f.is_set ≡ false
      → or_else (lookup key m) (lookup key file) ≡ some v
      → Effective fs environ file key v
  unfolding or_else
  below_flags key f v found unset h = elim (Option-cases (lookup key m)) [
    | inr (w, hm) ↦
        let (value, is_text, sets) = env_some key hm in
        let same : v ≡ some (text value) =
          (let e : some v ≡ some w = sym h ∙ ap (λ o. or_else o (lookup key file)) hm in cc) in
        subst (Effective fs environ file key) (sym same) (by_env f value found unset sets)
    | inl hm ↦
        by_file f v found unset (env_none key (registered_key fs key f reg found).1 hm)
          (ap (λ o. or_else o (lookup key file)) (sym hm) ∙ h)
  ]

  of_flag :
      (key : Bytes) (f : Flag)
      → find_flag key fs ≡ some f
      → (f.is_set ≡ true) ⊎ (f.is_set ≡ false)
      → (f.is_set ≡ true) ⊎ (api.get (api.load k m) key ≡ none)
      → Effective fs environ file key (some (text f.value))
  of_flag key f found (inl set) wanted = by_flag f found set
  of_flag key f found (inr unset) (inl set) = by_flag f found set
  of_flag key f found (inr unset) (inr nothing) =
      let (plain, ne) = registered_key fs key f reg found in
      let (no_env, no_file) =
        or_else-none (lookup key m) (lookup key file) (sym (get_env key plain) ∙ nothing) in
      by_default f found unset (env_none key ne no_env) no_file

  from_flag :
      (key : Bytes) {v : Option Datum} → lookup key n ≡ some v → Effective fs environ file key v
  unfolding or_else
  from_flag key {v} h =
      let (f, found, same, wanted) =
        flag_cases fs (api.get (api.load k m)) (key, v)
          (All-In (FromFlag fs skip_config_flag (api.get (api.load k m))) n
            (doc.flag_entries fs skip_config_flag (api.load k m) from_flags) (lookup-In key n h)) in
      subst (Effective fs environ file key) (sym same)
        (of_flag key f found (Bool-cases f.is_set) wanted)

  -- The merged value of a setting is the one that the order of the sources gives.
  pub merged-Effective :
      (key : Bytes) (f : Flag)
      → find_flag key fs ≡ some f
      → bytes_eq key config_flag ≡ false
      → (v : Option Datum) × (api.get (api.load (api.load k m) n) key ≡ some v)
        × Effective fs environ file key v
  unfolding or_else
  merged-Effective key f found kept =
      let plain = (registered_key fs key f reg found).0 in
      elim (Option-cases (lookup key n)) [
        | inr (v, hn) ↦ (
          v,
          get_flags key plain ∙ ap (λ o. or_else o (or_else (lookup key m) (lookup key file))) hn,
          from_flag key hn,
        )
        | inl hn ↦ elim (Option-cases (or_else (lookup key m) (lookup key file))) [
          | inl nothing ↦ absurd (flag_kept key f found kept hn (inr (get_env key plain ∙ nothing)))
          | inr (v, hv) ↦ (
            v,
            get_flags key plain
                ∙ ap (λ o. or_else o (or_else (lookup key m) (lookup key file))) hn
                ∙ hv,
            below_flags key f v found (unset (Bool-cases f.is_set) hn) hv,
          )
        ]
      ]
    where
      unset : (f.is_set ≡ true) ⊎ (f.is_set ≡ false) → lookup key n ≡ none → f.is_set ≡ false
      unset (inl set) hn = absurd (flag_kept key f found kept hn (inl set))
      unset (inr is_unset) hn = is_unset
