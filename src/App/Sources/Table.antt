-- ===== src/App/Sources/Table.antt =====
-- A table that behaves as koanf documents, with the environment and the flags as providers.
use go_e_bpf_proxy.Base.{
  ◌≡◌, ◌≢◌, refl, sym, ◌∙◌, subst, ◌⊎◌, inl, inr, Bool, true, false, ◌||◌, Option, none, some, List,
  [], ◌∷◌, ◌++◌, Bytes, bytes_eq, bytes_eq_iff, bytes_eq_refl, if◌then◌else◌, All, In, here, there,
  arith, Bool-cases, Option-cases,
}
use go_e_bpf_proxy.App.Settings.{Datum}
use go_e_bpf_proxy.App.Sources.{Flag, find_flag, Layer}
use go_e_bpf_proxy.App.Sources.Documented.{
  lookup, or_else, starts_with, Transform, FromVar, FromFlag,
}
use go_e_bpf_proxy.App.Sources.Effective.{names, All-map, find_cases, find_flag-name}

abbrev pub Entry : Type 0
Entry = Bytes × Option Datum

unfoldable pub table_keys : Layer → List Bytes
table_keys [] = []
table_keys (e ∷ m) = e.0 ∷ table_keys m

pub lookup-append :
    (key : Bytes) (m k : Layer) → lookup key (m ++ k) ≡ or_else (lookup key m) (lookup key k)
unfolding lookup or_else
lookup-append key [] k = refl
lookup-append key (e ∷ m) k = elim (Bool-cases (bytes_eq e.0 key)) [
  | inl same ↦ rw same refl
  | inr other ↦ rw (other, lookup-append key m k) refl
]

pub table_keys-nil :
    (key : Bytes) (k : Layer) {v : Option Datum} → lookup key k ≡ some v → In key (table_keys k)
unfolding lookup table_keys
table_keys-nil key [] h = cc
table_keys-nil key (e ∷ k) h = elim (Bool-cases (bytes_eq e.0 key)) [
  | inl same ↦ subst (λ x. In x (e.0 ∷ table_keys k)) ((bytes_eq_iff e.0 key).0 same) here
  | inr other ↦ there (table_keys-nil key k (sym (rw other refl) ∙ h))
]

-- An entry with an empty key is left out.
unfoldable pub add : Bool → Entry → Layer → Layer
add wanted ([], v) m = m
add wanted (c ∷ cs, v) m = if wanted then (c ∷ cs, v) ∷ m else m

add-All :
    (P : Entry → Type 0) (wanted : Bool) (e : Entry) (m : Layer)
    → (e.0 ≢ [] → wanted ≡ true → P e)
    → All P m
    → All P (add wanted e m)
unfolding add
add-All P wanted ([], v) m h a = a
add-All P true (c ∷ cs, v) m h a = (h (λ e. cc) refl, a)
add-All P false (c ∷ cs, v) m h a = a

lookup-head : (e : Entry) (m : Layer) → lookup e.0 (e ∷ m) ≢ none
unfolding lookup
lookup-head e m h = let same = bytes_eq_refl e.0 in ground arith

lookup-tail :
    (key : Bytes) (e : Entry) (m : Layer) → lookup key m ≢ none → lookup key (e ∷ m) ≢ none
unfolding lookup
lookup-tail key e m ne h = ground arith

add-lookup :
    (wanted : Bool) (e : Entry) (m : Layer)
    → e.0 ≢ []
    → wanted ≡ true
    → lookup e.0 (add wanted e m) ≢ none
unfolding add
add-lookup wanted ([], v) m ne w h = ne refl
add-lookup true (c ∷ cs, v) m ne w h = lookup-head (c ∷ cs, v) m h
add-lookup false (c ∷ cs, v) m ne w h = cc

add-lookup_tail :
    (key : Bytes) (wanted : Bool) (e : Entry) (m : Layer)
    → lookup key m ≢ none
    → lookup key (add wanted e m) ≢ none
unfolding add
add-lookup_tail key wanted ([], v) m ne = ne
add-lookup_tail key true (c ∷ cs, v) m ne = lookup-tail key (c ∷ cs, v) m ne
add-lookup_tail key false (c ∷ cs, v) m ne = ne

unfoldable pub env_table : Bytes → Transform → List (Bytes × Bytes) → Layer
unfolding add
env_table prefix f [] = []
env_table prefix f ((name, value) ∷ vars) =
    let rest = env_table prefix f vars in add (starts_with prefix name) (f name value) rest

FromVar-later :
    {prefix : Bytes} {f : Transform} {vars : List (Bytes × Bytes)} {x : Bytes × Bytes} (e : Entry)
    → FromVar prefix f vars e
    → FromVar prefix f (x ∷ vars) e
FromVar-later e v = record {
  name = v.name;
  value = v.value;
  member = there v.member;
  prefixed = v.prefixed;
  same = v.same;
}

pub env_table-FromVar :
    (prefix : Bytes) (f : Transform) (vars : List (Bytes × Bytes))
    → All (FromVar prefix f vars) (env_table prefix f vars)
unfolding env_table
env_table-FromVar prefix f [] = tt
env_table-FromVar prefix f ((name, value) ∷ vars) =
    add-All (FromVar prefix f ((name, value) ∷ vars)) (starts_with prefix name) (f name value)
      (env_table prefix f vars)
      (λ ne wanted. record {
        name = name;
        value = value;
        member = here;
        prefixed = wanted;
        same = refl;
      })
      (All-map (FromVar prefix f vars) (FromVar prefix f ((name, value) ∷ vars)) FromVar-later
        (env_table prefix f vars) (env_table-FromVar prefix f vars))

env_table-has :
    (prefix : Bytes) (f : Transform) (vars : List (Bytes × Bytes)) (name value : Bytes)
    → In (name, value) vars
    → starts_with prefix name ≡ true
    → (f name value).0 ≢ []
    → lookup (f name value).0 (env_table prefix f vars) ≢ none
unfolding env_table
env_table-has prefix f [] name value m p ne = elim m [ ]
env_table-has prefix f (x ∷ vars) name value here p ne =
    add-lookup (starts_with prefix name) (f name value) (env_table prefix f vars) ne p
env_table-has prefix f ((n, w) ∷ vars) name value (there m) p ne =
    add-lookup_tail (f name value).0 (starts_with prefix n) (f n w) (env_table prefix f vars)
      (env_table-has prefix f vars name value m p ne)

pub env_table-all :
    (prefix : Bytes) (f : Transform) (vars : List (Bytes × Bytes)) {e : Entry}
    → FromVar prefix f vars e
    → e.0 ≢ []
    → lookup e.0 (env_table prefix f vars) ≢ none
env_table-all prefix f vars v ne =
    subst (λ x. x.0 ≢ [] → lookup x.0 (env_table prefix f vars) ≢ none) v.same
      (env_table-has prefix f vars v.name v.value v.member v.prefixed) ne

unfoldable pub is_none {ℓ} : {A : Type ℓ} → Option A → Bool
is_none none = true
is_none (some a) = false

unfoldable pub is_wanted : (Bytes → Option (Option Datum)) → Flag → Bytes → Bool
unfolding is_none
is_wanted old f key = f.is_set || is_none (old key)

-- The flags under the given names.
unfoldable pub flags_under :
    List Flag → Transform → (Bytes → Option (Option Datum)) → List Bytes → Layer
unfolding add is_wanted
flags_under fs t old [] = []
flags_under fs t old (n ∷ ns) =
    let rest = flags_under fs t old ns in
    elim (find_flag n fs) [
      | none ↦ rest
      | some f ↦ add (is_wanted old f (t f.name f.value).0) (t f.name f.value) rest
    ]

unfoldable pub flag_table : List Flag → Transform → (Bytes → Option (Option Datum)) → Layer
unfolding flags_under
flag_table fs t old = flags_under fs t old (names fs)

is_wanted_lem :
    (old : Bytes → Option (Option Datum)) (f : Flag) (key : Bytes)
    → is_wanted old f key ≡ true
    → (f.is_set ≡ true) ⊎ (old key ≡ none)
unfolding is_wanted is_none
is_wanted_lem old f key h = elim (Option-cases (old key)) [
  | inl nothing ↦ inr nothing
  | inr (v, something) ↦ inl (ground arith)
]

wanted-is_wanted :
    (old : Bytes → Option (Option Datum)) (f : Flag) (key : Bytes)
    → (f.is_set ≡ true) ⊎ (old key ≡ none)
    → is_wanted old f key ≡ true
unfolding is_wanted is_none
wanted-is_wanted old f key (inl set) = ground arith
wanted-is_wanted old f key (inr nothing) = ground arith

flags_under-FromFlag :
    (fs : List Flag) (t : Transform) (old : Bytes → Option (Option Datum)) (ns : List Bytes)
    → All (FromFlag fs t old) (flags_under fs t old ns)
unfolding flags_under
flags_under-FromFlag fs t old [] = tt
flags_under-FromFlag fs t old (n ∷ ns) = elim (Option-cases (find_flag n fs)) [
  | inl missing ↦ rw (missing, flags_under) (flags_under-FromFlag fs t old ns)
  | inr (f, found) ↦
      rw (found, flags_under)
        (add-All (FromFlag fs t old) (is_wanted old f (t f.name f.value).0) (t f.name f.value)
          (flags_under fs t old ns)
          (λ ne wanted. record {
            flag = f;
            found = subst (λ x. find_flag x fs ≡ some f) (sym (find_flag-name n fs f found)) found;
            same = refl;
            has_key = ne;
            wanted = is_wanted_lem old f (t f.name f.value).0 wanted;
          })
          (flags_under-FromFlag fs t old ns))
]

flags_under-has :
    (fs : List Flag) (t : Transform) (old : Bytes → Option (Option Datum)) (ns : List Bytes)
    (f : Flag)
    → In f.name ns
    → find_flag f.name fs ≡ some f
    → (t f.name f.value).0 ≢ []
    → is_wanted old f (t f.name f.value).0 ≡ true
    → lookup (t f.name f.value).0 (flags_under fs t old ns) ≢ none
unfolding flags_under
flags_under-has fs t old [] f m found ne w = elim m [ ]
flags_under-has fs t old (n ∷ ns) f here found ne w =
    rw (found, flags_under)
      (add-lookup (is_wanted old f (t f.name f.value).0) (t f.name f.value)
        (flags_under fs t old ns) ne w)
flags_under-has fs t old (n ∷ ns) f (there m) found ne w =
    let rest = flags_under-has fs t old ns f m found ne w in
    elim (Option-cases (find_flag n fs)) [
      | inl missing ↦ rw (missing, flags_under) rest
      | inr (g, there_is) ↦
          rw (there_is, flags_under)
            (add-lookup_tail (t f.name f.value).0 (is_wanted old g (t g.name g.value).0)
              (t g.name g.value) (flags_under fs t old ns) rest)
    ]

pub flag_table-FromFlag :
    (fs : List Flag) (t : Transform) (old : Bytes → Option (Option Datum))
    → All (FromFlag fs t old) (flag_table fs t old)
unfolding flag_table
flag_table-FromFlag fs t old = flags_under-FromFlag fs t old (names fs)

found-In : (key : Bytes) (fs : List Flag) {f : Flag} → find_flag key fs ≡ some f → In key (names fs)
unfolding find_flag names
found-In key [] h = cc
found-In key (g ∷ fs) h = elim (find_cases key g fs h) [
  | inl (same, e) ↦ subst (λ x. In x (g.name ∷ names fs)) same here
  | inr later ↦ there (found-In key fs later)
]

pub flag_table-all :
    (fs : List Flag) (t : Transform) (old : Bytes → Option (Option Datum)) {e : Entry}
    → FromFlag fs t old e
    → lookup e.0 (flag_table fs t old) ≢ none
unfolding flag_table
flag_table-all fs t old {e} v =
    subst
      (λ x.
        x.0 ≢ []
        → ((v.flag.is_set ≡ true) ⊎ (old x.0 ≡ none))
        → lookup x.0 (flag_table fs t old) ≢ none)
      v.same
      (λ ne wanted.
        flags_under-has fs t old (names fs) v.flag (found-In v.flag.name fs v.found) v.found ne
          (wanted-is_wanted old v.flag (t v.flag.name v.flag.value).0 wanted))
      v.has_key v.wanted
