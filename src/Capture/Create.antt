-- ===== src/Capture/Create.antt =====
-- CreateRunCapture, splitTemplate and NewWriter of internal/capture/pcapng.go on a file system, and
-- CheckTarget of internal/capture/retention.go. A template is a path that is not slashes alone.
pub mod Dirs
pub mod Tried
pub mod Template
pub mod Kept
mod Tests
use Prim.Native.Nat.{ℕ}
use go_e_bpf_proxy.Base.{
  zero, suc, ◌+◌, ◌%◌, Bool, true, false, not, List, [], ◌∷◌, ◌++◌, Bytes, bytes_eq, leb, ◌==◌,
  if◌then◌else◌, ℤ, Option, none, some,
}
use go_e_bpf_proxy.FilePath.{base, dir, ext, trim_suffix}
use go_e_bpf_proxy.Capture.RunName.{
  Created, opened, name_taken, create_failed, RunCapture, created, failed, all_taken,
  max_run_suffix, run_base, run_path,
}

pub record Parts : Type 0 where
  pub dir : Bytes
  pub stem : Bytes
  pub ext : Bytes

unfoldable pub split_template : Bytes → Parts
split_template template = record {
  dir = dir template;
  stem = trim_suffix (base template) (ext (base template));
  ext = ext (base template);
}

-- What stands at a path. `other` is an entry of any other kind, a dangling symlink included.
pub data Entry : Type 0 where
  absent other : Entry
  file : Bytes → Entry

abbrev pub Files : Type 0
Files = Bytes → Entry

unfoldable pub put : Files → Bytes → Entry → Files
put fs path e = λ p. if bytes_eq p path then e else fs p

-- What the operating system and pcapgo answer: the directories that a MkdirAll for the run's
-- directory comes to, which it makes where nothing stands, all of them or, if it fails, some; whether
-- it, and an OpenFile that finds nothing at the path, succeed; whether NewNgWriter and the flush do;
-- the headers, and what a flush that fails leaves of them.
pub record Answers : Type 0 where
  pub dirs_made : List Bytes
  pub mkdir_ok : Bytes → Bool
  pub open_ok : Bytes → Bool
  pub ng_ok : Bool
  pub flush_ok : Bool
  pub headers : Bytes
  pub partial : Bytes

unfoldable pub is_absent : Entry → Bool
is_absent absent = true
is_absent e = false

-- os.MkdirAll, which makes these directories where nothing stands.
unfoldable pub with_dirs : List Bytes → Files → Files
with_dirs [] fs = fs
with_dirs (d ∷ ds) fs = with_dirs ds (if is_absent (fs d) then put fs d other else fs)

-- os.OpenFile with O_CREATE|O_EXCL has made the file, which is empty.
unfoldable pub write_headers : Answers → Files → Bytes → Files × Created
write_headers ans fs path =
    if not ans.ng_ok
    then (put fs path (file []), create_failed)
    else if not ans.flush_ok
    then (put fs path (file ans.partial), create_failed)
    else (put fs path (file ans.headers), opened)

-- NewWriter
unfoldable pub create : Answers → Files → Bytes → Files × Created
create ans fs path =
    let made = with_dirs ans.dirs_made fs in
    if not (ans.mkdir_ok (dir path))
    then (made, create_failed)
    else if not (is_absent (made path))
    then (made, name_taken)
    else if not (ans.open_ok path)
    then (made, create_failed)
    else write_headers ans made path

-- `for n := 0; n <= maxRunSuffix; n++`, on fuel.
unfoldable pub run_loop : ℕ → Answers → Bytes → Bytes → Files → ℕ → Files × RunCapture
run_loop zero ans base ext fs n = (fs, all_taken)
run_loop (suc fuel) ans base ext fs n = elim (create ans fs (run_path base ext n)).1 [
  | opened ↦ ((create ans fs (run_path base ext n)).0, created (run_path base ext n))
  | create_failed ↦ ((create ans fs (run_path base ext n)).0, failed (run_path base ext n))
  | name_taken ↦
      if leb (n + 1) max_run_suffix
      then run_loop fuel ans base ext (create ans fs (run_path base ext n)).0 (n + 1)
      else ((create ans fs (run_path base ext n)).0, all_taken)
]

-- CreateRunCapture, at the start second `epoch`.
unfoldable pub run_capture : Answers → Bytes → ℤ → Files → Files × RunCapture
run_capture ans template epoch fs =
    let parts = split_template template in
    run_loop (max_run_suffix + 1) ans (run_base parts.dir parts.stem epoch) parts.ext fs 0

-- What os.Stat says of a directory: an error, that there is none, or its mode.
pub data DirStat : Type 0 where
  stat_failed no_dir : DirStat
  mode : ℕ → DirStat

pub data TargetError : Type 0 where
  stat_error world_accessible : TargetError

-- `perm&0o077 != 0`
unfoldable pub check_target : DirStat → Option TargetError
check_target stat_failed = some stat_error
check_target no_dir = none
check_target (mode m) = if m % 64 == 0 then none else some world_accessible
