-- ===== src/Capture/Retention/Expiry.antt =====
-- What Enforce of internal/capture/retention.go deletes.
use Prim.Native.Nat.{ℕ}
use mathlib.Core.List.{Memᴰ}
use mathlib.Core.List.Memᴰ
use go_e_bpf_proxy.Base.{
  ◌-◌, ◌^◌, ◌<◌, ◌≡◌, ◌≢◌, ◌↔◌, refl, sym, subst, ap, ◌∙◌, inl, inr, true, false, Option, none,
  some, List, [], ◌∷◌, arith, min, ℤ, pos, pos_part, negsuc, leb_ℤ, Bool-cases, Option-cases, ◌≤ℤ◌,
  Bytes, bytes_eq_iff,
}
use go_e_bpf_proxy.Capture.Retention.{
  Info, Entry, listed, Retention, RetentionFile, Removal, join, owned, is_run, finished_info,
  finished_entries, finished, expired, enforce_files, enforce,
}
use go_e_bpf_proxy.Capture.Retention.Owned.{IsOwnedName, owned_iff}

-- An entry that is a finished capture of this template: what Lstat says of it is `i`.
pub record IsFinished (r : Retention) (e : Entry) (i : Info) : Type 0 where
  pub named : IsOwnedName r.stem r.ext e.name
  pub not_this_run : r.run ≢ some (join r.dir e.name)
  pub found : e.info ≡ some i
  pub regular : i.regular ≡ true

abbrev file_of : Retention → Entry → Info → RetentionFile
file_of r e i = record { path = join r.dir e.name; size = i.size; mod_time = i.mod_time }

is_run_iff : (run : Option Bytes) (path : Bytes) → (is_run run path ≡ true) ↔ (run ≡ some path)
unfolding is_run
is_run_iff none path = ((λ e. cc), (λ e. cc))
is_run_iff (some run) path = (
  (λ e. ap some (sym ((bytes_eq_iff path run).0 e))),
  (λ e. ground (arith, bytes_eq_iff path run)),
)

not_regular :
    {r : Retention} {e : Entry} {i j : Info}
    → e.info ≡ some i
    → i.regular ≡ false
    → ¬ (IsFinished r e j)
not_regular here odd f = let found = f.found in let regular = f.regular in cc

-- An entry is skipped, or it is a finished capture and its file comes first.
pub data EntryCase (r : Retention) (e : Entry) (es : List Entry) : Type 0 where
  skipped :
      ((i : Info) → ¬ (IsFinished r e i))
      → finished_entries r (e ∷ es) ≡ finished_entries r es
      → EntryCase r e es
  taken :
      (i : Info)
      → IsFinished r e i
      → finished_entries r (e ∷ es) ≡ file_of r e i ∷ finished_entries r es
      → EntryCase r e es

pub entry_cases : (r : Retention) (e : Entry) (es : List Entry) → EntryCase r e es
unfolding finished_entries finished_info
entry_cases r e es = elim (Bool-cases (owned r.stem r.ext e.name)) [
  | inr other ↦
      skipped (λ i f. let n = (owned_iff r.stem r.ext e.name).1 f.named in cc) (rw other refl)
  | inl named ↦ elim (Bool-cases (is_run r.run (join r.dir e.name))) [
    | inl ours ↦
        skipped (λ i f. f.not_this_run ((is_run_iff r.run (join r.dir e.name)).0 ours))
          (rw (named, ours) refl)
    | inr theirs ↦ elim (Option-cases e.info) [
      | inl gone ↦ skipped (λ i f. cc (f.found)) (rw (named, theirs, gone) refl)
      | inr (i, here) ↦ elim (Bool-cases i.regular) [
        | inr odd ↦ skipped (λ j f. not_regular here odd f) (rw (named, theirs, here) (rw odd refl))
        | inl plain ↦
            taken i
              (record {
                named = (owned_iff r.stem r.ext e.name).0 named;
                not_this_run = λ eq. ground (arith, is_run_iff r.run (join r.dir e.name));
                found = here;
                regular = plain;
              })
              (rw (named, theirs, here) (rw plain refl))
      ]
    ]
  ]
]

abbrev Finished : Retention → List Entry → RetentionFile → Type 0
Finished r es f = (e : Entry) × (i : Info) × Memᴰ e es × IsFinished r e i × (f ≡ file_of r e i)

finished_entries_sound :
    (r : Retention) (es : List Entry) (f : RetentionFile)
    → Memᴰ f (finished_entries r es)
    → Finished r es f
unfolding finished_entries
finished_entries_sound r [] f m = absurd (Memᴰ.not-nil m)
finished_entries_sound r (e ∷ es) f m = elim (entry_cases r e es) [
  | skipped _ eq ↦
      let (e', i, at, fin, same) = finished_entries_sound r es f (subst (Memᴰ f) eq m) in
      (e', i, Memᴰ.tail at, fin, same)
  | taken i fin eq ↦ elim (Memᴰ.cases_cons (subst (Memᴰ f) eq m)) [
    | inl same ↦ (e, i, Memᴰ.head refl, fin, same)
    | inr later ↦
        let (e', j, at, fin', same) = finished_entries_sound r es f later in
        (e', j, Memᴰ.tail at, fin', same)
  ]
]

finished_entries_complete :
    (r : Retention) (es : List Entry) (e : Entry) (i : Info)
    → Memᴰ e es
    → IsFinished r e i
    → Memᴰ (file_of r e i) (finished_entries r es)
finished_entries_complete r [] e i m fin = absurd (Memᴰ.not-nil m)
finished_entries_complete r (d ∷ es) e i m fin = elim (entry_cases r d es) [
  | skipped none_of eq ↦ subst (Memᴰ (file_of r e i)) (sym eq) (elim (Memᴰ.cases_cons m) [
    | inl same ↦ absurd (none_of i (subst (λ x. IsFinished r x i) same fin))
    | inr later ↦ finished_entries_complete r es e i later fin
  ])
  | taken j fin' eq ↦ subst (Memᴰ (file_of r e i)) (sym eq) (elim (Memᴰ.cases_cons m) [
    | inl same ↦ Memᴰ.head (let found = fin.found in let found' = fin'.found in cc)
    | inr later ↦ Memᴰ.tail (finished_entries_complete r es e i later fin)
  ])
]

enforce_files_iff :
    (max_age now : ℕ) (removes : Bytes → Removal) (fs : List RetentionFile) (path : Bytes)
    → Memᴰ path (enforce_files max_age now removes fs).0
      ↔ ((f : RetentionFile) × Memᴰ f fs × (f.path ≡ path) × (expired max_age now f ≡ true))
unfolding enforce_files
enforce_files_iff max_age now removes [] path =
    ((λ m. absurd (Memᴰ.not-nil m)), (λ (f, m, _, _). absurd (Memᴰ.not-nil m)))
enforce_files_iff max_age now removes (f ∷ fs) path = elim (Bool-cases (expired max_age now f)) [
  | inr young ↦ (
    (λ m.
        let (g, at, same, old) =
          (enforce_files_iff max_age now removes fs path).0 (subst (Memᴰ path) (rw young refl) m) in
        (g, Memᴰ.tail at, same, old)),
    (λ (g, at, same, old). elim (Memᴰ.cases_cons at) [
      | inl eq ↦ absurd (cc)
      | inr later ↦
          subst (Memᴰ path) (rw young refl)
            ((enforce_files_iff max_age now removes fs path).1 (g, later, same, old))
    ]),
  )
  | inl old_one ↦ (
    (λ m. elim (Memᴰ.cases_cons (subst (Memᴰ path) (first old_one) m)) [
      | inl eq ↦ (f, Memᴰ.head refl, sym eq, old_one)
      | inr later ↦
          let (g, at, same, old) = (enforce_files_iff max_age now removes fs path).0 later in
          (g, Memᴰ.tail at, same, old)
    ]),
    (λ (g, at, same, old). subst (Memᴰ path) (sym (first old_one)) (elim (Memᴰ.cases_cons at) [
      | inl eq ↦ Memᴰ.head (cc)
      | inr later ↦
          Memᴰ.tail ((enforce_files_iff max_age now removes fs path).1 (g, later, same, old))
    ])),
  )
]
  where
    first :
        expired max_age now f ≡ true
        → (enforce_files max_age now removes (f ∷ fs)).0
          ≡ f.path ∷ (enforce_files max_age now removes fs).0
    first h = rw h refl

expired_iff :
    (max_age now : ℕ) (f : RetentionFile)
    → (expired max_age now f ≡ true) ↔ (max_age < min (now - f.mod_time) (2 ^ 63 - 1))
unfolding expired
expired_iff max_age now f = ground arith

-- What Enforce asks os.Remove to delete is exactly the paths of the finished captures, this run's
-- not among them, whose mtime is more than MaxAge ago: nothing else, and nothing at all unless
-- MaxAge is positive.
pub enforce_iff :
    (r : Retention) (es : List Entry) (now : ℕ) (removes : Bytes → Removal) (path : Bytes)
    → Memᴰ path (enforce r (listed es) now removes).0.0 ↔ (
        (pos 1 ≤ℤ r.max_age)
        × (e : Entry) × (i : Info) × Memᴰ e es
        × IsFinished r e i
        × (path ≡ join r.dir e.name)
        × (pos_part r.max_age < min (now - i.mod_time) (2 ^ 63 - 1)))
unfolding enforce finished
enforce_iff r es now removes path = elim (Bool-cases (leb_ℤ r.max_age (pos 0))) [
  | inl off ↦ (
    (λ m. absurd (Memᴰ.not-nil (subst (Memᴰ path) (rw off refl) m))),
    (λ h. absurd (let on = h.0 in omega (arith, age_off r.max_age off on))),
  )
  | inr on ↦ (
    (λ m.
        let (f, at, same, old) =
          (enforce_files_iff (pos_part r.max_age) now removes (finished_entries r es) path).0
            (subst (Memᴰ path) (rw on refl) m) in
        let (e, i, here, fin, eq) = finished_entries_sound r es f at in
        (
          age_on r.max_age on,
          e,
          i,
          here,
          fin,
          sym same ∙ ap (λ g. g.path) eq,
          (expired_iff (pos_part r.max_age) now (file_of r e i)).0
              (subst (λ g. expired (pos_part r.max_age) now g ≡ true) eq old),
        )),
    (λ (_, e, i, here, fin, eq, old). subst (Memᴰ path) (sym (rw on refl)) (
        (enforce_files_iff (pos_part r.max_age) now removes (finished_entries r es) path).1 (
          file_of r e i,
          finished_entries_complete r es e i here fin,
          sym eq,
          (expired_iff (pos_part r.max_age) now (file_of r e i)).1 old,
        ))),
  )
]
  where
    age_off : (n : ℤ) → leb_ℤ n (pos 0) ≡ true → ¬ (pos 1 ≤ℤ n)
    age_off (pos m) h k = absurd (ground arith)
    age_off (negsuc m) h k = absurd (omega arith)

    age_on : (n : ℤ) → leb_ℤ n (pos 0) ≡ false → pos 1 ≤ℤ n
    age_on (pos m) h = ground arith
    age_on (negsuc m) h = absurd (ground arith)
