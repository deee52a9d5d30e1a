-- ===== src/Keylog/Server.antt =====
-- The life of the server of internal/keylog/socket_server.go: NewSocketServer, checkSocketDir and Close,
-- as what they do to the file system and the network.
pub mod Guarded
use Prim.Native.Nat.{ℕ}
use go_e_bpf_proxy.Base.{
  ◌/◌, ◌%◌, ◌^◌, Bool, true, false, not, ◌||◌, List, [], ◌∷◌, ◌==◌, if◌then◌else◌,
}

-- What os.Stat says of the socket's directory: its permission bits, that there is none, or an error.
pub data DirStat : Type 0 where
  mode : ℕ → DirStat
  no_dir : DirStat
  stat_failed : DirStat

-- Whether the bit of value 2 ^ k is set.
pub has_bit : ℕ → ℕ → Bool
has_bit perm k = perm / 2 ^ k % 2 == 1

-- perm & 0o066 != 0
pub is_exposed : ℕ → Bool
unfolding has_bit
is_exposed perm = has_bit perm 5 || has_bit perm 4 || has_bit perm 2 || has_bit perm 1

-- Whether checkSocketDir returns nil.
pub check_socket_dir : DirStat → Bool
check_socket_dir (mode perm) = not (is_exposed perm)
check_socket_dir no_dir = true
check_socket_dir stat_failed = false

-- A call that may fail, or that has been made. `keylog_opened` is that of NewWriter in writer.go.
pub data Effect : Type 0 where
  dir_made stale_removed listened socket_chmodded keylog_opened : Effect
  listener_closed keylog_closed socket_removed : Effect

-- What NewSocketServer has done, without the call that failed, and whether it succeeds. A stale
-- socket that is not there counts as removed, and a listener whose Close fails as closed.
pub new_socket_server : (Effect → Bool) → DirStat → List Effect × Bool
new_socket_server fails stat =
    if fails dir_made
    then ([], false)
    else if not (check_socket_dir stat)
    then (dir_made ∷ [], false)
    else if fails stale_removed
    then (dir_made ∷ [], false)
    else if fails listened
    then (dir_made ∷ stale_removed ∷ [], false)
    else if fails socket_chmodded
    then (dir_made ∷ stale_removed ∷ listened ∷ listener_closed ∷ [], false)
    else if fails keylog_opened
    then (dir_made ∷ stale_removed ∷ listened ∷ socket_chmodded ∷ listener_closed ∷ [], false)
    else (dir_made ∷ stale_removed ∷ listened ∷ socket_chmodded ∷ keylog_opened ∷ [], true)

-- What Close of a server asks for, whatever fails.
pub close : List Effect
close = listener_closed ∷ keylog_closed ∷ socket_removed ∷ []
