-- ===== src/App/Tmpfs/Nearest.antt =====
-- checkKeylogTmpfs against the ancestors of the keylog's directory.
use Prim.Native.Nat.{ℕ, zero, suc, ◌≤◌}
use go_e_bpf_proxy.Base.{◌<◌, ◌≡◌, ◌≢◌, Bool, List, [], ◌∷◌, Bytes, length, drop, arith}
use go_e_bpf_proxy.FilePath.{render}
use go_e_bpf_proxy.App.Tmpfs.{
  Statfs, mounted, no_entry, statfs_failed, Checked, accepted, not_on_tmpfs, statfs_error,
  tmpfs_magic,
}

module _ (statfs : Bytes → Statfs) (rooted : Bool) where
  -- The answer for a clean path with these parts. Its ancestors are asked from itself up, each only
  -- if those below it do not exist; the first that exists decides, and so does an error.
  pub data Nearest (st : List Bytes) : Checked → Type 0 where
    on_tmpfs :
        (k : ℕ)
        → k ≤ length st
        → ((j : ℕ) → j < k → statfs (render rooted (drop j st)) ≡ no_entry)
        → statfs (render rooted (drop k st)) ≡ mounted tmpfs_magic
        → Nearest st accepted
    elsewhere :
        (k f_type : ℕ)
        → k ≤ length st
        → ((j : ℕ) → j < k → statfs (render rooted (drop j st)) ≡ no_entry)
        → statfs (render rooted (drop k st)) ≡ mounted f_type
        → f_type ≢ tmpfs_magic
        → Nearest st (not_on_tmpfs (render rooted (drop k st)) f_type)
    fails :
        (k : ℕ)
        → k ≤ length st
        → ((j : ℕ) → j < k → statfs (render rooted (drop j st)) ≡ no_entry)
        → statfs (render rooted (drop k st)) ≡ statfs_failed
        → Nearest st (statfs_error (render rooted (drop k st)))
    none_exists :
        ((j : ℕ) → j ≤ length st → statfs (render rooted (drop j st)) ≡ no_entry)
        → Nearest st (statfs_error (render rooted []))

  -- The ancestors of a path that does not exist are those of its parent.
  lower :
      (p : Bytes) (st : List Bytes) (n : ℕ)
      → statfs (render rooted (p ∷ st)) ≡ no_entry
      → ((j : ℕ) → j < n → statfs (render rooted (drop j st)) ≡ no_entry)
      → (j : ℕ) → j < suc n
      → statfs (render rooted (drop j (p ∷ st))) ≡ no_entry
  lower p st n h below zero lt = h
  lower p st n h below (suc j) lt = below j (omega arith)
