-- ===== src/Ebpf/Loader/PinDir.antt =====
-- Which configurations Validate accepts.
use go_e_bpf_proxy.Base.{
  ◌≡◌, ◌≢◌, ◌↔◌, ◌⊎◌, refl, sym, ap, ◌∙◌, inl, inr, Bool, true, false, none, List, [], ◌∷◌, ◌++◌,
  length, length-append, append_assoc, append-nil, Bytes, codes, bytes_eq, bytes_eq_iff, ==_iff,
  arith, Bool-cases,
}
use go_e_bpf_proxy.FilePath.{parts_loop, parts, is_rooted, resolve, path_below, render, clean}
use go_e_bpf_proxy.FilePath.Parts.{
  Stack, clean-Stack, parts_rooted, parts-path_below, Stack-NoSlash, loop_done,
}
use go_e_bpf_proxy.FilePath.Dir.{below_not_rooted}
use go_e_bpf_proxy.Ebpf.Loader.{Config, bpffs_prefix, has_prefix, in_bpffs, validate}

-- The parts of /sys/fs/bpf, newest first.
abbrev pub bpffs : List Bytes
bpffs = codes "bpf" ∷ codes "fs" ∷ codes "sys" ∷ []

has_prefix_sound : (p s : Bytes) → has_prefix p s ≡ true → (ys : Bytes) × (s ≡ p ++ ys)
unfolding has_prefix
has_prefix_sound [] s h = (s, refl)
has_prefix_sound (p ∷ ps) [] h = absurd (cc)
has_prefix_sound (p ∷ ps) (c ∷ cs) h =
    let (ys, e) = has_prefix_sound ps cs (ground arith) in (ys, ground (arith, ==_iff p c))

has_prefix_complete : (p ys : Bytes) → has_prefix p (p ++ ys) ≡ true
unfolding has_prefix
has_prefix_complete [] ys = refl
has_prefix_complete (p ∷ ps) ys = ground (arith, has_prefix_complete ps ys)

drop_last : List Bytes → List Bytes
drop_last [] = []
drop_last (x ∷ []) = []
drop_last (x ∷ y ∷ ys) = x ∷ drop_last (y ∷ ys)

drop_last-snoc : (xs : List Bytes) (x : Bytes) → drop_last (xs ++ x ∷ []) ≡ xs
unfolding drop_last
drop_last-snoc [] x = refl
drop_last-snoc (y ∷ []) x = refl
drop_last-snoc (y ∷ z ∷ zs) x = ap (◌∷◌ y) (drop_last-snoc (z ∷ zs) x)

-- What stands below /sys/fs/bpf/ has the parts of that directory at its top.
parts_below : (ys : Bytes) → parts (bpffs_prefix ++ b'/' ∷ ys) ≡ (parts ys ++ bpffs) ++ [] ∷ []
unfolding parts parts_loop
parts_below ys =
    loop_done (codes "bpf" ∷ codes "fs" ∷ codes "sys" ∷ [] ∷ []) [] ys
    ∙ sym (append_assoc (parts ys) bpffs ([] ∷ []))

render_below :
    (p : Bytes) (below : List Bytes)
    → (ys : Bytes) × (render true (p ∷ (below ++ bpffs)) ≡ (bpffs_prefix ++ b'/' ∷ []) ++ ys)
unfolding render path_below
render_below p [] = (p, refl)
render_below p (q ∷ below) =
    let (ys, e) = render_below q below in (ys ++ b'/' ∷ p, ap (λ t. t ++ b'/' ∷ p) e)

render-rooted :
    (rooted : Bool) (st : List Bytes) → Stack rooted st → is_rooted (render rooted st) ≡ rooted
unfolding is_rooted render
render-rooted true st s = refl
render-rooted false [] s = refl
render-rooted false (p ∷ st) s =
    ap is_rooted (sym (append-nil (path_below (p ∷ st)))) ∙ below_not_rooted p st [] s

-- A rooted clean path whose parts, with the empty one before the first slash, end in those of bpffs.
parts_under :
    (st : List Bytes) (below : List Bytes)
    → Stack true st
    → parts (render true st) ≡ (below ++ bpffs) ++ [] ∷ []
    → st ≡ below ++ bpffs
unfolding render path_below drop_last parts parts_loop
parts_under [] below s e =
    let short =
      ap (λ (t : List Bytes). length t) (ap drop_last e ∙ drop_last-snoc (below ++ bpffs) []) in
    absurd (omega (arith, length-append below bpffs))
parts_under (p ∷ st) below s e =
    let shown =
      parts_rooted (path_below (p ∷ st))
      ∙ ap (λ t. t ++ [] ∷ []) (parts-path_below p st (Stack-NoSlash s)) in
    sym (drop_last-snoc (p ∷ st) [])
    ∙ ap drop_last (sym shown ∙ e)
    ∙ drop_last-snoc (below ++ bpffs) []

in_bpffs_shape :
    (path : Bytes)
    → in_bpffs path ≡ true
    → (path ≡ bpffs_prefix) ⊎ ((ys : Bytes) × (path ≡ bpffs_prefix ++ b'/' ∷ ys))
unfolding in_bpffs
in_bpffs_shape path h = elim (Bool-cases (bytes_eq path bpffs_prefix)) [
  | inl on ↦ inl ((bytes_eq_iff path bpffs_prefix).0 on)
  | inr off ↦ inr (has_prefix_sound (bpffs_prefix ++ b'/' ∷ []) path (ground arith))
]

below_in : (below : List Bytes) → in_bpffs (render true (below ++ bpffs)) ≡ true
unfolding in_bpffs render path_below has_prefix
below_in [] = refl
below_in (p ∷ below) =
    let (ys, e) = render_below p below in
    let shown = ap in_bpffs e in
    let prefixed = has_prefix_complete (bpffs_prefix ++ b'/' ∷ []) ys in
    shown ∙ ground (arith, prefixed)

-- A clean path is /sys/fs/bpf or below if and only if it is rooted and its parts end so.
in_bpffs_iff :
    (rooted : Bool) (st : List Bytes)
    → Stack rooted st
    → (in_bpffs (render rooted st) ≡ true)
      ↔ ((rooted ≡ true) × (below : List Bytes) × (st ≡ below ++ bpffs))
unfolding in_bpffs render path_below is_rooted parts parts_loop has_prefix
in_bpffs_iff rooted st s = (
  (λ h. under rooted st s (in_bpffs_shape (render rooted st) h)),
  (λ (on, below, e). ap in_bpffs (ap (λ b. render b st) on ∙ ap (render true) e) ∙ below_in below),
)
  where
    under :
        (rooted : Bool) (st : List Bytes)
        → Stack rooted st
        → (render rooted st ≡ bpffs_prefix)
          ⊎ ((ys : Bytes) × (render rooted st ≡ bpffs_prefix ++ b'/' ∷ ys))
        → (rooted ≡ true) × (below : List Bytes) × (st ≡ below ++ bpffs)
    under true st s (inl e) = (refl, [], parts_under st [] s (ap parts e))
    under true st s (inr (ys, e)) =
        (refl, parts ys, parts_under st (parts ys) s (ap parts e ∙ parts_below ys))
    under false st s (inl e) =
        let r = sym (render-rooted false st s) ∙ ap is_rooted e in absurd (cc)
    under false st s (inr (ys, e)) =
        let r = sym (render-rooted false st s) ∙ ap is_rooted e in absurd (cc)

pin_dir_iff :
    (path : Bytes)
    → (in_bpffs (clean path) ≡ true)
      ↔ ((below : List Bytes) × (clean path ≡ render true (below ++ bpffs)))
unfolding clean
pin_dir_iff path = (
  (λ h.
      let (on, below, e) =
        (in_bpffs_iff (is_rooted path) (resolve (is_rooted path) (parts path)) (clean-Stack path)).0
          h in
      (below, ap (λ b. render b (resolve (is_rooted path) (parts path))) on ∙ ap (render true) e)),
  (λ (below, e). ap in_bpffs e ∙ below_in below),
)

-- Validate accepts a configuration if and only if it names a cgroup, a user other than root and a
-- port, and its pin dir is /sys/fs/bpf or below it, once "." and ".." are worked out.
pub validate_iff :
    (c : Config)
    → (validate c ≡ none) ↔ (
        (c.cgroup_path ≢ [])
        × ((below : List Bytes) × (clean c.pin_dir ≡ render true (below ++ bpffs)))
        × (c.proxy_uid ≢ 0)
        × (c.proxy_port ≢ 0))
unfolding validate
validate_iff c = (
  (λ h. (
    (λ e. let t = (bytes_eq_iff c.cgroup_path []).1 e in ground arith),
    (pin_dir_iff c.pin_dir).0 (ground arith),
    (λ e. ground arith),
    (λ e. ground arith),
  )),
  (λ (cgroup, under, uid, port).
      let inside = (pin_dir_iff c.pin_dir).1 under in
      let named = (bytes_eq_iff c.cgroup_path []).0 in ground arith),
)
