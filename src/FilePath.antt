-- ===== src/FilePath.antt =====
-- path/filepath of Go's standard library on Unix, as far as the program uses it: Clean, Dir, Base
-- and Ext. The parts of a path stand newest first.
pub mod Parts
pub mod Dir
pub mod Base
use go_e_bpf_proxy.Base.{
  Bool, true, false, not, ◌&&◌, ◌||◌, List, [], ◌∷◌, ◌++◌, Bytes, codes, bytes_eq, ◌==◌,
  if◌then◌else◌,
}

-- What stands between slashes.
unfoldable pub parts_loop : List Bytes → Bytes → Bytes → List Bytes
parts_loop done cur [] = cur ∷ done
parts_loop done cur (c ∷ cs) =
    let split = parts_loop (cur ∷ done) [] cs in
    let same = parts_loop done (cur ++ c ∷ []) cs in if c == b'/' then split else same

unfoldable pub parts : Bytes → List Bytes
parts path = parts_loop [] [] path

unfoldable pub is_rooted : Bytes → Bool
is_rooted [] = false
is_rooted (c ∷ cs) = c == b'/'

-- What ".." does.
unfoldable pub back : Bool → List Bytes → List Bytes
back rooted [] = if rooted then [] else codes ".." ∷ []
back rooted (q ∷ st) = if bytes_eq q (codes "..") then codes ".." ∷ q ∷ st else st

unfoldable pub clean_part : Bool → List Bytes → Bytes → List Bytes
unfolding back
clean_part rooted st p =
    if bytes_eq p [] || bytes_eq p (codes ".")
    then st
    else if bytes_eq p (codes "..")
    then back rooted st
    else p ∷ st

unfoldable pub resolve : Bool → List Bytes → List Bytes
resolve rooted [] = []
resolve rooted (p ∷ older) = clean_part rooted (resolve rooted older) p

unfoldable pub path_below : List Bytes → Bytes
path_below [] = []
path_below (p ∷ []) = p
path_below (p ∷ q ∷ st) = path_below (q ∷ st) ++ b'/' ∷ p

unfoldable pub render : Bool → List Bytes → Bytes
render true st = b'/' ∷ path_below st
render false [] = codes "."
render false (p ∷ st) = path_below (p ∷ st)

unfoldable pub clean : Bytes → Bytes
clean path = render (is_rooted path) (resolve (is_rooted path) (parts path))

-- The path up to its last slash.
unfoldable pub dir_part : Bytes → Bytes
dir_part [] = []
dir_part (c ∷ cs) =
    let rest = dir_part cs in
    if c == b'/' then c ∷ rest else elim rest [ [] ↦ [] | d ∷ ds ↦ c ∷ d ∷ ds ]

unfoldable pub dir : Bytes → Bytes
dir path = clean (dir_part path)

unfoldable pub has_slash : Bytes → Bool
has_slash [] = false
has_slash (c ∷ cs) = (c == b'/') || has_slash cs

-- From the last dot of the last element, or nothing.
unfoldable pub ext : Bytes → Bytes
ext [] = []
ext (c ∷ cs) =
    let rest = ext cs in
    elim rest [ d ∷ ds ↦ d ∷ ds | [] ↦ if (c == b'.') && not (has_slash cs) then c ∷ cs else [] ]

-- The path without the slashes at its end.
unfoldable pub trim_slashes : Bytes → Bytes
trim_slashes [] = []
trim_slashes (c ∷ cs) =
    let rest = trim_slashes cs in
    elim rest [ d ∷ ds ↦ c ∷ d ∷ ds | [] ↦ if c == b'/' then [] else c ∷ [] ]

-- What follows the last slash.
unfoldable pub last_part : Bytes → Bytes
last_part [] = []
last_part (c ∷ cs) = let rest = last_part cs in if c == b'/' || has_slash cs then rest else c ∷ cs

unfoldable pub base : Bytes → Bytes
base [] = codes "."
base (c ∷ cs) = elim (trim_slashes (c ∷ cs)) [ [] ↦ codes "/" | d ∷ ds ↦ last_part (d ∷ ds) ]

-- strings.TrimSuffix, the suffix second.
unfoldable pub trim_suffix : Bytes → Bytes → Bytes
trim_suffix [] suffix = []
trim_suffix (c ∷ cs) suffix =
    let rest = trim_suffix cs suffix in if bytes_eq (c ∷ cs) suffix then [] else c ∷ rest
