-- ===== src/FilePath/Dir.antt =====
-- What Dir makes of a clean path.
use go_e_bpf_proxy.Base.{
  ◌≡◌, ◌≢◌, refl, ap, ◌∙◌, Bool, true, false, List, [], ◌∷◌, ◌++◌, append_assoc, Bytes, codes, ◌==◌,
  arith,
}
use go_e_bpf_proxy.FilePath.{
  parts_loop, parts, is_rooted, clean_part, resolve, path_below, render, clean, dir_part, dir,
}
use go_e_bpf_proxy.FilePath.Parts.{
  NoSlash, Stack, bottom, named, up, loop_last, parts-path_below, parts_rooted, resolve_oldest,
  resolve-Stack, Stack-NoSlash,
}

-- dir_part, on what holds no slash and on the last slash.
dir_part_plain : (p : Bytes) → NoSlash p → dir_part p ≡ []
unfolding dir_part
dir_part_plain [] n = refl
dir_part_plain (c ∷ cs) n =
    let other : (c == b'/') ≡ false = ground (arith, n.0) in rw (other, dir_part_plain cs n.1) refl

dir_part_last : (xs p : Bytes) → NoSlash p → dir_part (xs ++ b'/' ∷ p) ≡ xs ++ b'/' ∷ []
unfolding dir_part
dir_part_last [] p n = rw (dir_part_plain p n) refl
dir_part_last (x ∷ []) p n = let rest = dir_part_last [] p n in ground arith
dir_part_last (x ∷ y ∷ ys) p n = let rest = dir_part_last (y ∷ ys) p n in ground arith

abbrev pub parent : List Bytes → List Bytes
parent [] = []
parent (p ∷ st) = st

pub parent-Stack : {rooted : Bool} {st : List Bytes} → Stack rooted st → Stack rooted (parent st)
parent-Stack bottom = bottom
parent-Stack (named p is_part not_up s) = s
parent-Stack (up off ups s) = s

Stack-IsPart :
    {rooted : Bool} {p : Bytes} {st : List Bytes} → Stack rooted (p ∷ st) → (NoSlash p) × (p ≢ [])
Stack-IsPart (named p is_part not_up s) = (is_part.no_slash, is_part.not_empty)
Stack-IsPart (up off ups s) = (omega arith, λ e. cc)

plain_not_rooted : (p ys : Bytes) → NoSlash p → p ≢ [] → is_rooted (p ++ ys) ≡ false
unfolding is_rooted
plain_not_rooted [] ys n ne = absurd (ne refl)
plain_not_rooted (c ∷ cs) ys n ne = ground (arith, n.0)

pub below_not_rooted :
    {rooted : Bool} (p : Bytes) (st : List Bytes) (ys : Bytes)
    → Stack rooted (p ∷ st)
    → is_rooted (path_below (p ∷ st) ++ ys) ≡ false
unfolding path_below
below_not_rooted p [] ys s = let (n, ne) = Stack-IsPart s in plain_not_rooted p ys n ne
below_not_rooted p (q ∷ st) ys s =
    ap is_rooted (append_assoc (path_below (q ∷ st)) (b'/' ∷ p) ys)
    ∙ below_not_rooted q st (b'/' ∷ p ++ ys) (parent-Stack s)

-- The parts of a path with a slash at its end.
parts-ended :
    {rooted : Bool} (q : Bytes) (st : List Bytes)
    → Stack rooted (q ∷ st)
    → parts (path_below (q ∷ st) ++ b'/' ∷ []) ≡ [] ∷ q ∷ st
unfolding parts
parts-ended q st s =
    loop_last [] [] (path_below (q ∷ st)) [] tt
    ∙ ap (◌∷◌ []) (parts-path_below q st (Stack-NoSlash s))

resolve_ended : (rooted : Bool) (ps : List Bytes) → resolve rooted ([] ∷ ps) ≡ resolve rooted ps
unfolding resolve clean_part
resolve_ended rooted ps = refl

clean_lem :
    (x : Bytes) {rooted : Bool} {st : List Bytes}
    → is_rooted x ≡ rooted
    → resolve rooted (parts x) ≡ st
    → clean x ≡ render rooted st
unfolding clean
clean_lem x {rooted} e h = ap (λ r. render r (resolve r (parts x))) e ∙ ap (render rooted) h

clean_root : clean (b'/' ∷ []) ≡ render true []
unfolding clean is_rooted parts parts_loop resolve clean_part
clean_root = refl

clean_nil : clean [] ≡ render false []
unfolding clean is_rooted parts parts_loop resolve clean_part
clean_nil = refl

ended_rooted :
    (q : Bytes) (st : List Bytes)
    → Stack true (q ∷ st)
    → clean (b'/' ∷ (path_below (q ∷ st) ++ b'/' ∷ [])) ≡ render true (q ∷ st)
unfolding is_rooted
ended_rooted q st s = clean_lem (b'/' ∷ (path_below (q ∷ st) ++ b'/' ∷ [])) refl (
    ap (resolve true) (parts_rooted (path_below (q ∷ st) ++ b'/' ∷ []))
    ∙ resolve_oldest true (parts (path_below (q ∷ st) ++ b'/' ∷ []))
    ∙ ap (resolve true) (parts-ended q st s)
    ∙ resolve_ended true (q ∷ st)
    ∙ resolve-Stack true s)

ended_relative :
    (q : Bytes) (st : List Bytes)
    → Stack false (q ∷ st)
    → clean (path_below (q ∷ st) ++ b'/' ∷ []) ≡ render false (q ∷ st)
ended_relative q st s =
    clean_lem (path_below (q ∷ st) ++ b'/' ∷ []) (below_not_rooted q st (b'/' ∷ []) s) (
      ap (resolve false) (parts-ended q st s)
      ∙ resolve_ended false (q ∷ st)
      ∙ resolve-Stack false s)

-- Dir of a clean path takes off its newest part, and leaves "/" and ".".
pub dir-render :
    (rooted : Bool) (st : List Bytes)
    → Stack rooted st
    → dir (render rooted st) ≡ render rooted (parent st)
unfolding dir render path_below
dir-render true [] s = ap clean (dir_part_last [] [] tt) ∙ clean_root
dir-render false [] s = ap clean (dir_part_plain (codes ".") (omega arith)) ∙ clean_nil
dir-render true (p ∷ []) s = ap clean (dir_part_last [] p (Stack-IsPart s).0) ∙ clean_root
dir-render false (p ∷ []) s = ap clean (dir_part_plain p (Stack-IsPart s).0) ∙ clean_nil
dir-render true (p ∷ q ∷ st) s =
    ap clean (dir_part_last (b'/' ∷ path_below (q ∷ st)) p (Stack-IsPart s).0)
    ∙ ended_rooted q st (parent-Stack s)
dir-render false (p ∷ q ∷ st) s =
    ap clean (dir_part_last (path_below (q ∷ st)) p (Stack-IsPart s).0)
    ∙ ended_relative q st (parent-Stack s)
