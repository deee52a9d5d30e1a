-- ===== src/FilePath/Base.antt =====
-- What Base and Ext make of a path, and what TrimSuffix leaves.
use Prim.Native.Nat.{ℕ}
use go_e_bpf_proxy.Base.{
  ◌≤◌, ◌≡◌, ◌≢◌, refl, ap, ◌∙◌, ◌⊎◌, inl, inr, false, ◌||◌, [], ◌∷◌, ◌++◌, Bytes, codes, bytes_eq,
  bytes_eq_iff, bytes_eq_refl, arith, Bool-cases, length,
}
use go_e_bpf_proxy.FilePath.{has_slash, ext, trim_slashes, last_part, base, trim_suffix}

ext_cases : (c : ℕ) (cs : Bytes) → (ext (c ∷ cs) ≡ ext cs) ⊎ (ext (c ∷ cs) ≡ c ∷ cs)
unfolding ext
ext_cases c cs = ground arith

length-ext : (p : Bytes) → length (ext p) ≤ length p
unfolding ext
length-ext [] = omega arith
length-ext (c ∷ cs) = elim (ext_cases c cs) [
  | inl later ↦ let n = length-ext cs in rw later (omega arith)
  | inr all ↦ rw all (omega arith)
]

trim_suffix_longer :
    (c : ℕ) (cs suffix : Bytes)
    → length suffix ≤ length cs
    → trim_suffix (c ∷ cs) suffix ≡ c ∷ trim_suffix cs suffix
unfolding trim_suffix
trim_suffix_longer c cs suffix h = elim (Bool-cases (bytes_eq (c ∷ cs) suffix)) [
  | inl same ↦
      let e : length (c ∷ cs) ≡ length suffix = ap length ((bytes_eq_iff (c ∷ cs) suffix).0 same) in
      absurd (omega arith)
  | inr other ↦ rw other refl
]

trim_suffix_whole : (c : ℕ) (cs : Bytes) → trim_suffix (c ∷ cs) (c ∷ cs) ≡ []
unfolding trim_suffix
trim_suffix_whole c cs = rw (bytes_eq_refl (c ∷ cs)) refl

stem-ext_nil : trim_suffix [] (ext []) ++ ext [] ≡ []
unfolding ext trim_suffix
stem-ext_nil = refl

-- The stem and the extension are the name.
pub stem-ext : (p : Bytes) → trim_suffix p (ext p) ++ ext p ≡ p
stem-ext [] = stem-ext_nil
stem-ext (c ∷ cs) = elim (ext_cases c cs) [
  | inl later ↦
      rw (later, trim_suffix_longer c cs (ext cs) (length-ext cs)) (ap (c ∷◌) (stem-ext cs))
  | inr all ↦ rw (all, trim_suffix_whole c cs) refl
]

last_part-no_slash : (p : Bytes) → has_slash (last_part p) ≡ false
unfolding has_slash last_part
last_part-no_slash [] = refl
last_part-no_slash (c ∷ cs) = let rest = last_part-no_slash cs in ground arith

List-cases : (t : Bytes) → (t ≡ []) ⊎ ((d : ℕ) × (ds : Bytes) × (t ≡ d ∷ ds))
List-cases [] = inl refl
List-cases (d ∷ ds) = inr (d, ds, refl)

base_cases :
    (p : Bytes)
    → (base p ≡ codes ".") ⊎ (base p ≡ codes "/") ⊎ ((q : Bytes) × (base p ≡ last_part q))
unfolding base
base_cases [] = inl refl
base_cases (c ∷ cs) = elim (List-cases (trim_slashes (c ∷ cs))) [
  | inl none_left ↦ inr (inl (rw (none_left, base) refl))
  | inr (d, ds, e) ↦ inr (inr (d ∷ ds, rw (e, base) refl))
]

no_slash_dot : has_slash (codes ".") ≡ false
unfolding has_slash
no_slash_dot = refl

-- Base has no slash in it, unless the path is slashes alone.
pub base-no_slash : (p : Bytes) → base p ≢ codes "/" → has_slash (base p) ≡ false
base-no_slash p h = elim (base_cases p) [
  | inl dot ↦ ap has_slash dot ∙ no_slash_dot
  | inr (inl root) ↦ absurd (h root)
  | inr (inr (q, part)) ↦ ap has_slash part ∙ last_part-no_slash q
]

pub has_slash-append : (a b : Bytes) → has_slash (a ++ b) ≡ (has_slash a || has_slash b)
unfolding has_slash
has_slash-append [] b = refl
has_slash-append (c ∷ cs) b = let rest = has_slash-append cs b in ground arith
