-- ===== src/Capture/Create/Template.antt =====
-- splitTemplate of internal/capture/pcapng.go, and the names made from a template.
use Prim.Native.Nat.{ℕ}
use go_e_bpf_proxy.Base.{
  ◌≡◌, ◌≢◌, refl, sym, ap, ◌∙◌, Bool, true, false, ◌||◌, [], ◌∷◌, ◌++◌, arith, All, Bytes, codes,
  pos,
}
use go_e_bpf_proxy.FilePath.{has_slash, base, dir, ext}
use go_e_bpf_proxy.FilePath.Base.{stem-ext, base-no_slash, has_slash-append}
use go_e_bpf_proxy.Capture.Retention.{join, owned}
use go_e_bpf_proxy.Capture.Retention.Owned.{
  IsDigit, IsDigits, IsOwnedName, plain, numbered, owned_iff,
}
use go_e_bpf_proxy.Capture.RunName.{run_base, run_path}
use go_e_bpf_proxy.Capture.RunName.Lowest.{run_path-IsOwnedName}
use go_e_bpf_proxy.Capture.Create.{split_template}

digits-no_slash : (ds : Bytes) → All IsDigit ds → has_slash ds ≡ false
unfolding has_slash
digits-no_slash [] h = refl
digits-no_slash (c ∷ cs) h = let rest = digits-no_slash cs h.1 in ground (arith, h.0)

number-no_slash : (ds : Bytes) → IsDigits ds → has_slash ds ≡ false
number-no_slash [] h = absurd h
number-no_slash (c ∷ cs) h = digits-no_slash (c ∷ cs) h

dash-no_slash : (rest : Bytes) → has_slash (b'-' ∷ rest) ≡ has_slash rest
unfolding has_slash
dash-no_slash rest = refl

joined : (a b : Bytes) → has_slash a ≡ false → has_slash b ≡ false → has_slash (a ++ b) ≡ false
joined a b ha hb = has_slash-append a b ∙ ground arith

-- A capture's name has no slash if the stem and the extension have none.
IsOwnedName-no_slash :
    (stem ext name : Bytes)
    → has_slash stem ≡ false
    → has_slash ext ≡ false
    → IsOwnedName stem ext name
    → has_slash name ≡ false
IsOwnedName-no_slash stem ext name hs he (plain epoch d e) =
    ap has_slash e
    ∙ joined stem (b'-' ∷ (epoch ++ ext)) hs
        (dash-no_slash (epoch ++ ext) ∙ joined epoch ext (number-no_slash epoch d) he)
IsOwnedName-no_slash stem ext name hs he (numbered epoch n d k e) =
    ap has_slash e
    ∙ joined stem (b'-' ∷ (epoch ++ b'-' ∷ (n ++ ext))) hs (
        dash-no_slash (epoch ++ b'-' ∷ (n ++ ext))
        ∙ joined epoch (b'-' ∷ (n ++ ext)) (number-no_slash epoch d)
            (dash-no_slash (n ++ ext) ∙ joined n ext (number-no_slash n k) he))

or_false : (a b : Bool) → (a || b) ≡ false → (a ≡ false) × (b ≡ false)
or_false false b h = (refl, h)
or_false true b h = cc

-- The stem and the extension are the template's base, and have no slash.
pub split_template-base :
    (template : Bytes)
    → base template ≢ codes "/"
    → ((split_template template).stem ++ (split_template template).ext ≡ base template)
      × (has_slash (split_template template).stem ≡ false)
      × (has_slash (split_template template).ext ≡ false)
unfolding split_template
split_template-base template h =
    let whole = stem-ext (base template) in
    let split = or_false _ _ (
      sym (has_slash-append (split_template template).stem (split_template template).ext)
      ∙ ap has_slash whole
      ∙ base-no_slash template h) in
    (whole, split.0, split.1)

-- The path that CreateRunCapture tries for a suffix, from 1970 on.
pub record IsRunPath (template : Bytes) (path : Bytes) : Type 0 where
  pub name : Bytes
  pub here : path ≡ join (dir template) name
  pub no_slash : has_slash name ≡ false
  pub is_owned : owned (split_template template).stem (split_template template).ext name ≡ true

split_template-dir : (template : Bytes) → (split_template template).dir ≡ dir template
unfolding split_template
split_template-dir template = refl

pub run_path-IsRunPath :
    (template : Bytes) (epoch n : ℕ)
    → base template ≢ codes "/"
    → let parts = split_template template in
      IsRunPath template (run_path (run_base parts.dir parts.stem (pos epoch)) parts.ext n)
run_path-IsRunPath template epoch n h =
    let parts = split_template template in
    let (name, eq, shape) = run_path-IsOwnedName parts.dir parts.stem parts.ext epoch n in
    let (whole, stem_plain, ext_plain) = split_template-base template h in
    record {
      name = name;
      here = eq ∙ ap (λ d. join d name) (split_template-dir template);
      no_slash = IsOwnedName-no_slash parts.stem parts.ext name stem_plain ext_plain shape;
      is_owned = (owned_iff parts.stem parts.ext name).1 shape;
    }
