-- ===== src/Ebpf/Loader.antt =====
-- internal/ebpf/loader.go. The kernel and the file system are a list of effects, of which any may fail.
pub mod PinDir
pub mod Undo
use Prim.Native.Nat.{ℕ}
use go_e_bpf_proxy.Base.{
  Bool, true, false, not, ◌&&◌, ◌||◌, Option, none, some, List, [], ◌∷◌, ◌++◌, Bytes, codes,
  bytes_eq, ◌==◌, if◌then◌else◌,
}
use go_e_bpf_proxy.FilePath.{clean}

pub record Config : Type 0 where
  pub cgroup_path : Bytes
  pub pin_dir : Bytes
  pub proxy_uid : ℕ
  pub proxy_port : ℕ

abbrev pub bpffs_prefix : Bytes
bpffs_prefix = codes "/sys/fs/bpf"

pub data Invalid : Type 0 where
  no_cgroup_path outside_bpffs root_uid no_port : Invalid

-- strings.HasPrefix, the prefix first.
pub has_prefix : Bytes → Bytes → Bool
has_prefix [] s = true
has_prefix (p ∷ ps) [] = false
has_prefix (p ∷ ps) (c ∷ cs) = (p == c) && has_prefix ps cs

pub in_bpffs : Bytes → Bool
in_bpffs path = bytes_eq path bpffs_prefix || has_prefix (bpffs_prefix ++ b'/' ∷ []) path

pub validate : Config → Option Invalid
validate c =
    if bytes_eq c.cgroup_path []
    then some no_cgroup_path
    else if not (in_bpffs (clean c.pin_dir))
    then some outside_bpffs
    else if c.proxy_uid == 0
    then some root_uid
    else if c.proxy_port == 0
    then some no_port
    else none

-- The two programs that Attach links, and the two maps that are pinned.
pub data Program : Type 0 where
  connect4 sockops : Program

-- What the loader asks of the kernel and the file system.
pub data Effect : Type 0 where
  memlock_removed pin_dir_made objects_loaded objects_closed pin_dir_removed : Effect
  link_attached link_closed : Program → Effect
  cookie_unpinned tuple_unpinned : Effect

-- What os.Stat says of the pin dir.
pub data Stat : Type 0 where
  present absent stat_failed : Stat

pub record Loader : Type 0 where
  pub links : List Program
  pub owns_pin_dir : Bool

is_absent : Stat → Bool
is_absent present = false
is_absent absent = true
is_absent stat_failed = false

module _ (fails : Effect → Bool) where
  -- What Load asks for, in this order, and its Loader unless it fails.
  pub load : Config → Stat → List Effect × Option Loader
  unfolding is_absent
  load c stat = elim (validate c) [
    | some e ↦ ([], none)
    | none ↦
        if fails memlock_removed
        then (memlock_removed ∷ [], none)
        else if fails pin_dir_made
        then (memlock_removed ∷ pin_dir_made ∷ [], none)
        else if fails objects_loaded
        then (memlock_removed ∷ pin_dir_made ∷ objects_loaded ∷ [], none)
        else (
          memlock_removed ∷ pin_dir_made ∷ objects_loaded ∷ [],
          some (record { links = []; owns_pin_dir = is_absent stat }),
        )
  ]

  -- The Loader after Attach, what it asks for, and whether it succeeds.
  pub attach : Loader → Loader × List Effect × Bool
  attach l =
      if fails (link_attached connect4)
      then (l, link_attached connect4 ∷ [], false)
      else if fails (link_attached sockops)
      then (
        record l { links = l.links ++ connect4 ∷ [] },
        link_attached connect4 ∷ link_attached sockops ∷ [],
        false,
      )
      else (
        record l { links = (l.links ++ connect4 ∷ []) ++ sockops ∷ [] },
        link_attached connect4 ∷ link_attached sockops ∷ [],
        true,
      )

close_links : List Program → List Effect
close_links [] = []
close_links (p ∷ ps) = link_closed p ∷ close_links ps

-- The Loader after Close, and what it asks for, whatever fails.
pub close : Loader → Loader × List Effect
unfolding close_links
close l = (
  record l { links = [] },
  close_links l.links
      ++ cookie_unpinned
        ∷ tuple_unpinned
        ∷ objects_closed
        ∷ (if l.owns_pin_dir then pin_dir_removed ∷ [] else []),
)
