-- ===== src/Keylog/Append/Dedup.antt =====
-- The keylog against its specification: the valid lines that came while the gate was open, each
-- (label, client random, secret) once.
use go_e_bpf_proxy.Base.{
  ◌≡◌, ◌↔◌, refl, sym, ap, ◌∙◌, ◌⊎◌, inl, inr, subst, Bool, true, false, not, ◌&&◌, ◌||◌, Option,
  none, some, List, [], ◌∷◌, ◌++◌, map, map-append, arith, All, All-append, Bytes, bytes_eq,
  bytes_eq_iff, if◌then◌else◌, if_elim, Bool-cases, Option-cases,
}
use go_e_bpf_proxy.Keylog.Fields.{fields}
use go_e_bpf_proxy.Keylog.Nss.{validate_line}
use go_e_bpf_proxy.Keylog.Append.Keys.{key_of-fields}
use go_e_bpf_proxy.Keylog.Append.{
  KeylogWriter, AppendCall, key_of, contains, append_valid, append, opened, appends,
}

fields_eq : List Bytes → List Bytes → Bool
fields_eq [] [] = true
fields_eq [] (g ∷ gs) = false
fields_eq (f ∷ fs) [] = false
fields_eq (f ∷ fs) (g ∷ gs) = bytes_eq f g && fields_eq fs gs

-- Some line among `kept` has the fields of `line`.
pub repeats : List Bytes → Bytes → Bool
unfolding fields_eq
repeats [] line = false
repeats (k ∷ ks) line = fields_eq (fields k) (fields line) || repeats ks line

abbrev pub is_none {ℓ} : {A : Type ℓ} → Option A → Bool
is_none none = true
is_none (some a) = false

-- The lines that a keylog should hold: a call adds its line if it is well formed, the gate is open,
-- no line kept before has its fields, and the write works.
pub keep : Bool → List Bytes → AppendCall → List Bytes
keep gated kept c =
    if is_none (validate_line c.line)
      && not (gated && not c.open_now)
      && not (repeats kept c.line)
      && not c.fails
    then kept ++ c.line ∷ []
    else kept

pub keep_all : Bool → List Bytes → List AppendCall → List Bytes
keep_all gated kept [] = kept
keep_all gated kept (c ∷ cs) = keep_all gated (keep gated kept c) cs

fields_eq_iff : (fs gs : List Bytes) → (fields_eq fs gs ≡ true) ↔ (fs ≡ gs)
unfolding fields_eq
fields_eq_iff [] [] = ((λ _. refl), (λ _. refl))
fields_eq_iff [] (g ∷ gs) = ((λ e. cc), (λ e. cc))
fields_eq_iff (f ∷ fs) [] = ((λ e. cc), (λ e. cc))
fields_eq_iff (f ∷ fs) (g ∷ gs) = (
  (λ e. ground (arith, bytes_eq_iff f g, fields_eq_iff fs gs)),
  (λ e. ground (arith, bytes_eq_iff f g, fields_eq_iff fs gs)),
)

abbrev IsValidLine : Bytes → Type 0
IsValidLine l = validate_line l ≡ none

-- Remembering keys is remembering fields.
contains-keys :
    (kept : List Bytes) (line : Bytes)
    → All IsValidLine kept
    → IsValidLine line
    → contains (map (λ l. key_of (fields l)) kept) (key_of (fields line)) ≡ repeats kept line
unfolding contains repeats
contains-keys [] line a v = refl
contains-keys (k ∷ ks) line a v = ground (
  arith,
  contains-keys ks line a.1 v,
  bytes_eq_iff (key_of (fields k)) (key_of (fields line)),
  fields_eq_iff (fields k) (fields line),
  key_of-fields k line a.0 v,
)

-- What the writer's state is, for the lines that it kept.
record Keeps (w : KeylogWriter) (kept : List Bytes) : Type 0 where
  pub file : w.file ≡ kept
  pub seen : w.seen ≡ map (λ l. key_of (fields l)) kept
  pub sunk : w.sunk ≡ (if w.has_sink then kept else [])
  pub valid : All IsValidLine kept

-- The writer with one more line.
added : KeylogWriter → Bytes → KeylogWriter
added w line = record w {
  file = w.file ++ line ∷ [];
  seen = w.seen ++ key_of (fields line) ∷ [];
  sunk = if w.has_sink then w.sunk ++ line ∷ [] else w.sunk;
}

-- A call adds its line on both sides or on neither.
append_cases :
    (w : KeylogWriter) (kept : List Bytes) (c : AppendCall)
    → Keeps w kept
    → let w' = (append w c.line c.open_now c.fails).0 in
      ((w' ≡ w) × (keep w.gated kept c ≡ kept))
      ⊎ ((w' ≡ added w c.line) × (keep w.gated kept c ≡ kept ++ c.line ∷ []) × IsValidLine c.line)
unfolding append append_valid keep added
append_cases w kept c k = elim (Option-cases (validate_line c.line)) [
  | inr (e, bad) ↦ inl (ground arith, ground arith)
  | inl good ↦
      let t : contains w.seen (key_of (fields c.line)) ≡ repeats kept c.line =
        ap (λ ks. contains ks (key_of (fields c.line))) k.seen
        ∙ contains-keys kept c.line k.valid good in
      elim (Bool-cases (w.gated && not c.open_now)) [
        | inl shut ↦ inl (ground arith, ground arith)
        | inr through ↦ elim (Bool-cases (repeats kept c.line)) [
          | inl again ↦ inl (ground arith, ground arith)
          | inr fresh ↦ elim (Bool-cases c.fails) [
            | inl failed ↦ inl (ground arith, ground arith)
            | inr worked ↦ inr (ground arith, ground arith, good)
          ]
        ]
      ]
]

added-Keeps :
    (w : KeylogWriter) (kept : List Bytes) (line : Bytes)
    → IsValidLine line
    → Keeps w kept
    → Keeps (added w line) (kept ++ line ∷ [])
unfolding added
added-Keeps w kept line v k = record {
  file = ap (λ t. t ++ line ∷ []) k.file;
  seen =
      ap (λ t. t ++ key_of (fields line) ∷ []) k.seen
      ∙ sym (map-append (λ l. key_of (fields l)) kept (line ∷ []));
  sunk = ground (arith, k.sunk);
  valid = All-append IsValidLine kept (line ∷ []) k.valid (v, tt);
}

append-Keeps :
    (w : KeylogWriter) (kept : List Bytes) (c : AppendCall)
    → Keeps w kept
    → Keeps (append w c.line c.open_now c.fails).0 (keep w.gated kept c)
append-Keeps w kept c k = elim (append_cases w kept c k) [
  | inl (same, same_kept) ↦ rw (same, same_kept) k
  | inr (grown, grown_kept, v) ↦ rw (grown, grown_kept) (added-Keeps w kept c.line v k)
]

options-append :
    (w : KeylogWriter) (line : Bytes) (open_now fails : Bool)
    → ((append w line open_now fails).0.gated ≡ w.gated)
      × ((append w line open_now fails).0.has_sink ≡ w.has_sink)
unfolding append append_valid
options-append w line open_now fails = ground arith

appends-Keeps :
    (w : KeylogWriter) (kept : List Bytes) (cs : List AppendCall) (gated : Bool)
    → w.gated ≡ gated
    → Keeps w kept
    → Keeps (appends w cs) (keep_all gated kept cs) × ((appends w cs).has_sink ≡ w.has_sink)
unfolding appends keep_all
appends-Keeps w kept [] gated g k = (k, refl)
appends-Keeps w kept (c ∷ cs) gated g k =
    let w1 = (append w c.line c.open_now c.fails).0 in
    let same = options-append w c.line c.open_now c.fails in
    let (rest, sink) =
      appends-Keeps w1 (keep gated kept c) cs gated (same.0 ∙ g)
        (subst (λ b. Keeps w1 (keep b kept c)) g (append-Keeps w kept c k)) in
    (rest, sink ∙ same.1)

pub appends-keep_all :
    (has_sink gated : Bool) (cs : List AppendCall)
    → ((appends (opened has_sink gated) cs).file ≡ keep_all gated [] cs)
      × ((appends (opened has_sink gated) cs).sunk
          ≡ (if has_sink then keep_all gated [] cs else []))
appends-keep_all has_sink gated cs =
    let fresh : Keeps (opened has_sink gated) [] = record {
      file = refl;
      seen = refl;
      sunk = ground arith;
      valid = tt;
    } in
    let (k, sink) = appends-Keeps (opened has_sink gated) [] cs gated refl fresh in
    (k.file, k.sunk ∙ ap (λ b. if b then keep_all gated [] cs else []) sink)

-- No two lines of a list have the same fields.
abbrev pub Distinct : List Bytes → Type 0
Distinct [] = Unit {0}
Distinct (l ∷ ls) = All (λ k. ¬ (fields l ≡ fields k)) ls × Distinct ls

Distinct-snoc :
    (kept : List Bytes) (line : Bytes)
    → repeats kept line ≡ false
    → Distinct kept
    → Distinct (kept ++ line ∷ [])
unfolding repeats
Distinct-snoc [] line r d = (tt, tt)
Distinct-snoc (k ∷ ks) line r d = (
  All-append (λ j. ¬ (fields k ≡ fields j)) ks (line ∷ []) d.0
      ((λ e. ground (arith, fields_eq_iff (fields k) (fields line))), tt),
  Distinct-snoc ks line (ground arith) d.1,
)

-- A list of well-formed lines, no two of which have the same fields.
abbrev pub Clean : List Bytes → Type 0
Clean ls = All (λ l. validate_line l ≡ none) ls × Distinct ls

keep-Clean :
    (gated : Bool) (kept : List Bytes) (c : AppendCall) → Clean kept → Clean (keep gated kept c)
unfolding keep
keep-Clean gated kept c d =
    if_elim Clean
      (is_none (validate_line c.line)
        && not (gated && not c.open_now)
        && not (repeats kept c.line)
        && not c.fails)
      (λ t. (
        All-append IsValidLine kept (c.line ∷ []) d.0 (ground arith, tt),
        Distinct-snoc kept c.line (ground arith) d.1,
      ))
      (λ _. d)

keep_all-Clean :
    (gated : Bool) (kept : List Bytes) (cs : List AppendCall)
    → Clean kept
    → Clean (keep_all gated kept cs)
unfolding keep_all
keep_all-Clean gated kept [] d = d
keep_all-Clean gated kept (c ∷ cs) d =
    keep_all-Clean gated (keep gated kept c) cs (keep-Clean gated kept c d)

-- After any calls of Append on a new writer, every line of the keylog file is well formed, and no
-- two lines of it have the same label, client random and secret.
pub appends-Clean :
    (has_sink gated : Bool) (cs : List AppendCall) → Clean (appends (opened has_sink gated) cs).file
appends-Clean has_sink gated cs =
    subst Clean (sym (appends-keep_all has_sink gated cs).0) (keep_all-Clean gated [] cs (tt, tt))
