-- ===== src/App/Tmpfs.antt =====
-- cmd/app/keylog_tmpfs.go: whether the keylog's directory is on tmpfs.
pub mod Nearest
use Prim.Native.Nat.{ℕ, zero, suc}
use go_e_bpf_proxy.Base.{◌==◌, Bool, Option, none, some, Bytes, bytes_eq, length, if◌then◌else◌}
use go_e_bpf_proxy.FilePath.{parts, dir}

-- What unix.Statfs says of a path: the f_type, ENOENT or another error.
pub data Statfs : Type 0 where
  mounted : ℕ → Statfs
  no_entry : Statfs
  statfs_failed : Statfs

-- What checkKeylogTmpfs returns; an error names the directory that Statfs was last asked for.
pub data Checked : Type 0 where
  accepted : Checked
  not_on_tmpfs : Bytes → ℕ → Checked
  statfs_error : Bytes → Checked

-- unix.TMPFS_MAGIC
abbrev pub tmpfs_magic : ℕ
tmpfs_magic = 0x01021994

pub verdict : Bytes → ℕ → Checked
verdict at f_type = if f_type == tmpfs_magic then accepted else not_on_tmpfs at f_type

module _ (statfs : Bytes → Statfs) where
  -- The loop, with what stands behind it. `none` is out of fuel.
  pub nearest : ℕ → Bytes → Option Checked
  nearest zero at = none
  nearest (suc fuel) at =
      let further = nearest fuel (dir at) in
      elim (statfs at) [
        | mounted f_type ↦ some (verdict at f_type)
        | no_entry ↦ if bytes_eq (dir at) at then some (statfs_error at) else further
        | statfs_failed ↦ some (statfs_error at)
      ]

  pub check_keylog_tmpfs : Bytes → Option Checked
  check_keylog_tmpfs keylog_path =
      nearest (suc (length (parts (dir keylog_path)))) (dir keylog_path)
