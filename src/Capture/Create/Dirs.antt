-- ===== src/Capture/Create/Dirs.antt =====
-- os.MkdirAll, as NewWriter of internal/capture/pcapng.go calls it on a file system.
use go_e_bpf_proxy.Base.{
  ◌≡◌, ◌≢◌, refl, sym, ap, ◌∙◌, subst, inl, inr, false, List, [], ◌∷◌, All, Bytes, In, here, there,
  bytes_eq, bytes_eq_iff, if◌then◌else◌, if_elim, Bool-cases,
}
use go_e_bpf_proxy.Capture.Create.{Entry, absent, file, Files, put, is_absent, with_dirs}

present : (e : Entry) → is_absent e ≡ false → e ≢ absent
unfolding is_absent
present absent h = absurd (cc)
present (file rest) h = λ e. cc
present Entry.other h = λ e. cc

not_absent : (e : Entry) → e ≢ absent → is_absent e ≡ false
unfolding is_absent
not_absent absent h = absurd (h refl)
not_absent (file rest) h = refl
not_absent Entry.other h = refl

-- One directory.
abbrev with_dir : Files → Bytes → Files
with_dir fs d = if is_absent (fs d) then put fs d Entry.other else fs

with_dir-there : (fs : Files) (d p : Bytes) → fs p ≢ absent → with_dir fs d p ≡ fs p
unfolding put is_absent
with_dir-there fs d p h =
    if_elim (λ (g : Files). g p ≡ fs p) (is_absent (fs d))
      (λ free. elim (Bool-cases (bytes_eq p d)) [
        | inl same ↦
            let at = ap fs ((bytes_eq_iff p d).0 same) in
            let busy = not_absent (fs p) h in let e = sym (ap is_absent at) ∙ busy in absurd (cc)
        | inr differs ↦ rw differs refl
      ])
      (λ _. refl)

with_dir-other : (fs : Files) (d p : Bytes) → p ≢ d → with_dir fs d p ≡ fs p
unfolding put
with_dir-other fs d p ne =
    if_elim (λ (g : Files). g p ≡ fs p) (is_absent (fs d))
      (λ free. elim (Bool-cases (bytes_eq p d)) [
        | inl same ↦ absurd (ne ((bytes_eq_iff p d).0 same))
        | inr differs ↦ rw differs refl
      ])
      (λ _. refl)

with_dir-made : (fs : Files) (d : Bytes) → with_dir fs d d ≢ absent
unfolding put
with_dir-made fs d =
    if_elim (λ (g : Files). g d ≢ absent) (is_absent (fs d))
      (λ free. let same = (bytes_eq_iff d d).1 refl in rw same (λ e. cc))
      (λ busy. present (fs d) busy)

-- MkdirAll leaves what is there, and what is none of its directories.
pub with_dirs-there :
    (ds : List Bytes) (fs : Files) (p : Bytes) → fs p ≢ absent → with_dirs ds fs p ≡ fs p
unfolding with_dirs
with_dirs-there [] fs p h = refl
with_dirs-there (d ∷ ds) fs p h =
    let same = with_dir-there fs d p h in
    with_dirs-there ds (with_dir fs d) p (λ gone. h (sym same ∙ gone)) ∙ same

pub with_dirs-other :
    (ds : List Bytes) (fs : Files) (p : Bytes) → (In p ds → ⊥) → with_dirs ds fs p ≡ fs p
unfolding with_dirs
with_dirs-other [] fs p h = refl
with_dirs-other (d ∷ ds) fs p h =
    with_dirs-other ds (with_dir fs d) p (λ m. h (there m))
    ∙ with_dir-other fs d p (λ e. h (subst (λ x. In p (x ∷ ds)) e here))

with_dirs-made : (ds : List Bytes) (fs : Files) → All (λ d. with_dirs ds fs d ≢ absent) ds
unfolding with_dirs
with_dirs-made [] fs = tt
with_dirs-made (d ∷ ds) fs = (
  λ gone.
      with_dir-made fs d (sym (with_dirs-there ds (with_dir fs d) d (with_dir-made fs d)) ∙ gone),
  with_dirs-made ds (with_dir fs d),
)

with_dirs-fixed :
    (ds : List Bytes) (fs : Files) → All (λ d. fs d ≢ absent) ds → with_dirs ds fs ≡ fs
unfolding with_dirs
with_dirs-fixed [] fs a = refl
with_dirs-fixed (d ∷ ds) fs a = rw (not_absent (fs d) a.0) (with_dirs-fixed ds fs a.1)

-- What MkdirAll has made it does not make again.
pub with_dirs-twice :
    (ds : List Bytes) (fs : Files) → with_dirs ds (with_dirs ds fs) ≡ with_dirs ds fs
with_dirs-twice ds fs = with_dirs-fixed ds (with_dirs ds fs) (with_dirs-made ds fs)
