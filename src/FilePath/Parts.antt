-- ===== src/FilePath/Parts.antt =====
-- Clean paths, and what Dir makes of them.
use go_e_bpf_proxy.Base.{
  ◌≡◌, ◌≢◌, refl, sym, ap, ◌∙◌, subst, inl, inr, Bool, true, false, ◌||◌, List, [], ◌∷◌, ◌++◌,
  append_assoc, append-nil, Bytes, codes, bytes_eq, bytes_eq_iff, ◌==◌, All, All-append, arith,
  Bool-cases, length, suc, ◌≤◌,
}
use go_e_bpf_proxy.FilePath.{
  parts_loop, parts, is_rooted, back, clean_part, resolve, path_below, render,
}

abbrev pub NoSlash : Bytes → Type 0
NoSlash p = All (λ c. c ≢ b'/') p

-- A part that Clean keeps.
pub record IsPart (p : Bytes) : Type 0 where
  pub no_slash : NoSlash p
  pub not_empty : p ≢ []
  pub not_dot : p ≢ codes "."

-- The parts of a clean path: ".." stands only at the front, and not in a rooted path.
pub data Stack (rooted : Bool) : List Bytes → Type 0 where
  bottom : Stack rooted []
  named :
      (p : Bytes) {st : List Bytes}
      → IsPart p
      → p ≢ codes ".."
      → Stack rooted st
      → Stack rooted (p ∷ st)
  up :
      {st : List Bytes}
      → rooted ≡ false
      → All (λ q. q ≡ codes "..") st
      → Stack rooted st
      → Stack rooted (codes ".." ∷ st)

-- parts_loop, on what holds no slash and on the last slash.
loop_plain :
    (done : List Bytes) (cur p : Bytes) → NoSlash p → parts_loop done cur p ≡ (cur ++ p) ∷ done
unfolding parts_loop
loop_plain done cur [] n = ap (λ t. t ∷ done) (sym (append-nil cur))
loop_plain done cur (c ∷ cs) n =
    let other : (c == b'/') ≡ false = ground (arith, n.0) in
    rw other
      (loop_plain done (cur ++ c ∷ []) cs n.1 ∙ ap (λ t. t ∷ done) (append_assoc cur (c ∷ []) cs))

pub loop_last :
    (done : List Bytes) (cur xs p : Bytes)
    → NoSlash p
    → parts_loop done cur (xs ++ b'/' ∷ p) ≡ p ∷ parts_loop done cur xs
unfolding parts_loop
loop_last done cur [] p n = loop_plain (cur ∷ done) [] p n
loop_last done cur (x ∷ xs) p n = elim (Bool-cases (x == b'/')) [
  | inl slash ↦ rw slash (loop_last (cur ∷ done) [] xs p n)
  | inr other ↦ rw other (loop_last done (cur ++ x ∷ []) xs p n)
]

pub loop_done :
    (done : List Bytes) (cur xs : Bytes) → parts_loop done cur xs ≡ parts_loop [] cur xs ++ done
unfolding parts_loop
loop_done done cur [] = refl
loop_done done cur (x ∷ xs) = elim (Bool-cases (x == b'/')) [
  | inl slash ↦ rw slash (
      loop_done (cur ∷ done) [] xs
      ∙ sym (append_assoc (parts_loop [] [] xs) (cur ∷ []) done)
      ∙ ap (λ t. t ++ done) (sym (loop_done (cur ∷ []) [] xs)))
  | inr other ↦ rw other (loop_done done (cur ++ x ∷ []) xs)
]

pub parts-path_below :
    (p : Bytes) (st : List Bytes) → All NoSlash (p ∷ st) → parts (path_below (p ∷ st)) ≡ p ∷ st
unfolding parts path_below
parts-path_below p [] n = loop_plain [] [] p n.0
parts-path_below p (q ∷ st) n =
    loop_last [] [] (path_below (q ∷ st)) p n.0 ∙ ap (◌∷◌ p) (parts-path_below q st n.1)

pub parts_rooted : (xs : Bytes) → parts (b'/' ∷ xs) ≡ parts xs ++ [] ∷ []
unfolding parts parts_loop
parts_rooted xs = loop_done ([] ∷ []) [] xs

pub resolve_oldest :
    (rooted : Bool) (ps : List Bytes) → resolve rooted (ps ++ [] ∷ []) ≡ resolve rooted ps
unfolding resolve clean_part
resolve_oldest rooted [] = refl
resolve_oldest rooted (p ∷ ps) = ap (λ t. clean_part rooted t p) (resolve_oldest rooted ps)

back_up : (st : List Bytes) → All (λ q. q ≡ codes "..") st → back false st ≡ codes ".." ∷ st
unfolding back
back_up [] a = refl
back_up (q ∷ st) a = rw (a.0) refl

bytes_ne : (p q : Bytes) → p ≢ q → bytes_eq p q ≡ false
bytes_ne p q ne = elim (Bool-cases (bytes_eq p q)) [
  | inl e ↦ absurd (ne ((bytes_eq_iff p q).0 e))
  | inr off ↦ off
]

clean_named :
    (rooted : Bool) (st : List Bytes) (p : Bytes)
    → IsPart p
    → p ≢ codes ".."
    → clean_part rooted st p ≡ p ∷ st
unfolding clean_part
clean_named rooted st p is_part not_up =
    rw
      (
        bytes_ne p [] is_part.not_empty,
        bytes_ne p (codes ".") is_part.not_dot,
        bytes_ne p (codes "..") not_up,
      )
      refl

-- A clean path's parts stay as they are.
pub resolve-Stack : (rooted : Bool) {st : List Bytes} → Stack rooted st → resolve rooted st ≡ st
unfolding resolve clean_part
resolve-Stack rooted bottom = refl
resolve-Stack rooted (named p {st} is_part not_up s) =
    ap (λ t. clean_part rooted t p) (resolve-Stack rooted s)
    ∙ clean_named rooted st p is_part not_up
resolve-Stack rooted (up {st} off ups s) =
    ap (back rooted) (resolve-Stack rooted s) ∙ ap (λ b. back b st) off ∙ back_up st ups

back-Stack : (rooted : Bool) {st : List Bytes} → Stack rooted st → Stack rooted (back rooted st)
unfolding back
back-Stack true bottom = bottom
back-Stack false bottom = up refl tt bottom
back-Stack rooted (named p {st} is_part not_up s) = rw (bytes_ne p (codes "..") not_up) s
back-Stack rooted (up {st} off ups s) = up off (refl, ups) (up off ups s)

clean_part-Stack :
    (rooted : Bool) (st : List Bytes) (p : Bytes)
    → NoSlash p
    → Stack rooted st
    → Stack rooted (clean_part rooted st p)
unfolding clean_part
clean_part-Stack rooted st p n s = elim (Bool-cases (bytes_eq p [] || bytes_eq p (codes "."))) [
  | inl on ↦ rw on s
  | inr off ↦ elim (Bool-cases (bytes_eq p (codes ".."))) [
    | inl on ↦ rw (off, on) (back-Stack rooted s)
    | inr named_part ↦
        rw (off, named_part)
          (named p
            (record {
              no_slash = n;
              not_empty = λ e. let t = (bytes_eq_iff p []).1 e in ground arith;
              not_dot = λ e. let t = (bytes_eq_iff p (codes ".")).1 e in ground arith;
            })
            (λ e. let t = (bytes_eq_iff p (codes "..")).1 e in cc) s)
  ]
]

resolve-parts :
    (rooted : Bool) (ps : List Bytes) → All NoSlash ps → Stack rooted (resolve rooted ps)
unfolding resolve
resolve-parts rooted [] n = bottom
resolve-parts rooted (p ∷ ps) n =
    clean_part-Stack rooted (resolve rooted ps) p n.0 (resolve-parts rooted ps n.1)

loop-NoSlash :
    (done : List Bytes) (cur cs : Bytes)
    → All NoSlash done
    → NoSlash cur
    → All NoSlash (parts_loop done cur cs)
unfolding parts_loop
loop-NoSlash done cur [] d n = (n, d)
loop-NoSlash done cur (c ∷ cs) d n = elim (Bool-cases (c == b'/')) [
  | inl slash ↦ rw slash (loop-NoSlash (cur ∷ done) [] cs (n, d) tt)
  | inr other ↦ rw other (
      loop-NoSlash done (cur ++ c ∷ []) cs d
        (All-append (λ x. x ≢ b'/') cur (c ∷ []) n (ground arith, tt)))
]

-- What Clean gives is the rendering of a clean path's parts.
pub clean-Stack : (path : Bytes) → Stack (is_rooted path) (resolve (is_rooted path) (parts path))
unfolding parts
clean-Stack path = resolve-parts (is_rooted path) (parts path) (loop-NoSlash [] [] path tt tt)

pub Stack-NoSlash : {rooted : Bool} {st : List Bytes} → Stack rooted st → All NoSlash st
Stack-NoSlash bottom = tt
Stack-NoSlash (named p is_part not_up s) = (is_part.no_slash, Stack-NoSlash s)
Stack-NoSlash (up off ups s) = (omega arith, Stack-NoSlash s)

resolve_root : resolve true (parts (b'/' ∷ [])) ≡ []
unfolding parts parts_loop resolve clean_part
resolve_root = refl

resolve_dot : resolve false (parts (codes ".")) ≡ []
unfolding parts parts_loop resolve clean_part
resolve_dot = refl

pub render-parts :
    (rooted : Bool) (st : List Bytes)
    → Stack rooted st
    → resolve rooted (parts (render rooted st)) ≡ st
unfolding render path_below
render-parts true [] s = resolve_root
render-parts false [] s = resolve_dot
render-parts true (p ∷ st) s =
    ap (resolve true) (parts_rooted (path_below (p ∷ st)))
    ∙ resolve_oldest true (parts (path_below (p ∷ st)))
    ∙ ap (resolve true) (parts-path_below p st (Stack-NoSlash s))
    ∙ resolve-Stack true s
render-parts false (p ∷ st) s =
    ap (resolve false) (parts-path_below p st (Stack-NoSlash s)) ∙ resolve-Stack false s

-- A clean path has one list of parts.
pub render_injective :
    (rooted : Bool) (st st' : List Bytes)
    → Stack rooted st
    → Stack rooted st'
    → render rooted st ≡ render rooted st'
    → st ≡ st'
render_injective rooted st st' s s' e =
    sym (render-parts rooted st s)
    ∙ ap (λ x. resolve rooted (parts x)) e
    ∙ render-parts rooted st' s'

length-back : (rooted : Bool) (st : List Bytes) → length (back rooted st) ≤ suc (length st)
unfolding back
length-back rooted [] = ground arith
length-back rooted (q ∷ st) = ground arith

length-clean_part :
    (rooted : Bool) (st : List Bytes) (p : Bytes)
    → length (clean_part rooted st p) ≤ suc (length st)
unfolding clean_part
length-clean_part rooted st p = let up_one = length-back rooted st in ground arith

length-resolve : (rooted : Bool) (ps : List Bytes) → length (resolve rooted ps) ≤ length ps
unfolding resolve
length-resolve rooted [] = omega arith
length-resolve rooted (p ∷ ps) =
    omega (arith, length-clean_part rooted (resolve rooted ps) p, length-resolve rooted ps)

-- A clean path has at most as many parts as it shows.
pub length-parts-render :
    (rooted : Bool) (st : List Bytes)
    → Stack rooted st
    → length st ≤ length (parts (render rooted st))
length-parts-render rooted st s =
    subst (λ t. length t ≤ length (parts (render rooted st))) (render-parts rooted st s)
      (length-resolve rooted (parts (render rooted st)))
