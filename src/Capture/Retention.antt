-- ===== src/Capture/Retention.antt =====
-- internal/capture/retention.go, on the entries of the capture directory. A name is read as
-- filepath.Base, Ext and Dir split the template: `dir`, `stem` and `ext`, which are UTF-8.
pub mod Owned
pub mod Expiry
pub mod Total
pub mod Tests
use Prim.Native.Nat.{ℕ}
use go_e_bpf_proxy.Base.{
  ◌+◌, ◌-◌, ◌%◌, ◌^◌, ◌≡◌, Bool, true, false, not, ◌&&◌, ◌||◌, Option, none, some, List, [], ◌∷◌,
  ◌++◌, Bytes, codes, bytes_eq, leb, ◌==◌, min, if◌then◌else◌, ℤ, pos, pos_part, leb_ℤ, signed64,
  add64, u64_mod,
}

-- What Lstat says of an entry: whether it is a regular file, its size and its mtime, which is a
-- count of nanoseconds from Go's zero time.
pub record Info : Type 0 where
  pub regular : Bool
  pub size : ℕ
  pub mod_time : ℕ

-- An entry whose `info` is `none` is gone when Lstat asks.
pub record Entry : Type 0 where
  pub name : Bytes
  pub info : Option Info

-- What ReadDir gives.
pub data Listing : Type 0 where
  listed : List Entry → Listing
  no_directory : Listing
  unreadable : Listing

-- Of Template, `dir`, `stem` and `ext`. `run` is a clean path, as Path gives it, or `none` for "".
pub record Retention : Type 0 where
  pub dir : Bytes
  pub stem : Bytes
  pub ext : Bytes
  pub run : Option Bytes
  pub max_bytes : ℤ
  pub max_age : ℤ
  pub retain : Bool

pub record RetentionFile : Type 0 where
  pub path : Bytes
  pub size : ℕ
  pub mod_time : ℕ

-- filepath.Join of a clean directory and the name of an entry.
unfoldable pub join : Bytes → Bytes → Bytes
join dir name =
    if bytes_eq dir (codes ".")
    then name
    else if bytes_eq dir (codes "/")
    then b'/' ∷ name
    else dir ++ b'/' ∷ name

abbrev pub is_digit : ℕ → Bool
is_digit c = leb b'0' c && leb c b'9'

-- `[0-9]+`, then what `rest` matches, with backtracking.
pub digits_then : (Bytes → Bool) → Bytes → Bool
digits_then rest [] = false
digits_then rest (c ∷ cs) = is_digit c && (rest cs || digits_then rest cs)

-- A literal, then what `rest` matches.
pub literal_then : Bytes → (Bytes → Bool) → Bytes → Bool
literal_then [] rest cs = rest cs
literal_then (l ∷ ls) rest [] = false
literal_then (l ∷ ls) rest (c ∷ cs) = (l == c) && literal_then ls rest cs

-- The regular expression: `^stem-[0-9]+(-[0-9]+)?ext$`.
pub owned : Bytes → Bytes → Bytes → Bool
unfolding digits_then literal_then
owned stem ext name =
    literal_then stem
      (literal_then (b'-' ∷ []) (
        digits_then (λ rest.
          bytes_eq rest ext
          || literal_then (b'-' ∷ []) (digits_then (λ end. bytes_eq end ext)) rest)))
      name

is_run : Option Bytes → Bytes → Bool
is_run none path = false
is_run (some run) path = bytes_eq path run

finished_info : Bytes → Option Info → List RetentionFile → List RetentionFile
finished_info path none files = files
finished_info path (some i) files =
    if i.regular
    then (record { path = path; size = i.size; mod_time = i.mod_time }) ∷ files
    else files

pub finished_entries : Retention → List Entry → List RetentionFile
unfolding is_run finished_info
finished_entries r [] = []
finished_entries r (e ∷ es) =
    let files = finished_entries r es in
    let path = join r.dir e.name in
    if not (owned r.stem r.ext e.name) || is_run r.run path
    then files
    else finished_info path e.info files

-- The files, and whether it succeeded.
pub finished : Retention → Listing → List RetentionFile × Bool
finished r (listed es) = (finished_entries r es, true)
finished r no_directory = ([], true)
finished r unreadable = ([], false)

-- `total += f.size`, an int64 pattern.
pub total_from : ℕ → List RetentionFile → ℕ
total_from total [] = total
total_from total (f ∷ fs) = total_from (add64 total f.size) fs

pub owned_bytes : Retention → Listing → ℕ × Bool
unfolding total_from
owned_bytes r l = (total_from 0 (finished r l).0, (finished r l).1)

pub room : Retention → Listing → ℤ × Bool
room r l = if leb_ℤ r.max_bytes (pos 0) then (pos 0, true) else (
  signed64 ((pos_part r.max_bytes + (u64_mod - (owned_bytes r l).0)) % u64_mod),
  (owned_bytes r l).1,
)

-- What os.Remove does with a path.
pub data Removal : Type 0 where
  removed already_gone remove_failed : Removal

-- `now.Sub(f.modTime) <= r.MaxAge`, for a positive MaxAge. Sub saturates, and is negative for an
-- mtime that is still to come.
pub expired : ℕ → ℕ → RetentionFile → Bool
expired max_age now f = not (leb (min (now - f.mod_time) (2 ^ 63 - 1)) max_age)

pub remove_error : (Bytes → Removal) → Bytes → List Bytes
remove_error removes path = elim (removes path) [
  | removed ↦ []
  | already_gone ↦ []
  | remove_failed ↦ path ∷ []
]

-- The paths that Enforce asks os.Remove to delete, and those whose deletion failed.
pub enforce_files : ℕ → ℕ → (Bytes → Removal) → List RetentionFile → List Bytes × List Bytes
enforce_files max_age now removes [] = ([], [])
enforce_files max_age now removes (f ∷ fs) =
    let (asked, failed) = enforce_files max_age now removes fs in
    if expired max_age now f
    then (f.path ∷ asked, remove_error removes f.path ++ failed)
    else (asked, failed)

-- With those, whether the directory could be read.
pub enforce : Retention → Listing → ℕ → (Bytes → Removal) → (List Bytes × List Bytes) × Bool
unfolding enforce_files
enforce r l now removes =
    if leb_ℤ r.max_age (pos 0)
    then (([], []), true)
    else if (finished r l).1
    then (enforce_files (pos_part r.max_age) now removes (finished r l).0, true)
    else (([], []), false)

-- The paths that Cleanup asks os.Remove to delete, and those whose deletion failed.
pub cleanup : Retention → (Bytes → Removal) → List Bytes × List Bytes
unfolding remove_error
cleanup r removes = elim r.run [
  | none ↦ ([], [])
  | some run ↦ if r.retain then ([], []) else (run ∷ [], remove_error removes run)
]
