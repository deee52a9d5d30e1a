-- ===== src/Ebpf/Redirect.antt =====
-- The eBPF programs of bpf/proxy.bpf.c, with their two maps. The maps belong to the kernel: they are
-- a parameter, with what the programs rely on as laws.
pub mod Connect
pub mod History
pub mod Join
pub mod Table
pub mod Tests
use Prim.Native.Nat.{ℕ}
use go_e_bpf_proxy.Base.{
  ◌+◌, ◌*◌, ◌/◌, ◌%◌, ◌^◌, ◌≡◌, ◌≢◌, Bool, true, false, Option, none, some, List, [], ◌∷◌, ◌==◌,
  if◌then◌else◌,
}
use go_e_bpf_proxy.Ebpf.Codec.{TupleKey, OrigDst}

-- A map of BPF_MAP_TYPE_LRU_HASH.
pub record LruHash (K V : Type 0) : Type 1 where
  pub Map : Type 0
  pub lookup : Map → K → Option V
  pub update : Map → K → V → Map
  pub delete : Map → K → Map

abbrev pub proxy_uid : ℕ
proxy_uid = 1337

abbrev pub proxy_port : ℕ
proxy_port = 15001

abbrev pub proxy_tcp : ℕ
proxy_tcp = 6

-- The fields of bpf_sock_addr that connect4 uses, with the user and the socket's cookie, which it
-- asks the kernel for.
pub record SockAddr : Type 0 where
  pub protocol : ℕ
  pub uid_gid : ℕ
  pub cookie : ℕ
  pub user_ip4 : ℕ
  pub user_port : ℕ

-- The fields of bpf_sock_ops that sockops_prog uses, with the cookie. `connecting` says whether
-- `op` is BPF_SOCK_OPS_TCP_CONNECT_CB.
pub record SockOps : Type 0 where
  pub connecting : Bool
  pub cookie : ℕ
  pub local_ip4 : ℕ
  pub local_port : ℕ

swap16 : ℕ → ℕ
swap16 v = v % 2 ^ 8 * 2 ^ 8 + v / 2 ^ 8 % 2 ^ 8

swap32 : ℕ → ℕ
swap32 v =
    v % 2 ^ 8 * 2 ^ 24
    + v / 2 ^ 8 % 2 ^ 8 * 2 ^ 16
    + v / 2 ^ 16 % 2 ^ 8 * 2 ^ 8
    + v / 2 ^ 24 % 2 ^ 8

-- bpf_ntohs and bpf_htons, bpf_ntohl and bpf_htonl: `little` is the machine's byte order.
pub ntohs : Bool → ℕ → ℕ
unfolding swap16
ntohs little v = if little then swap16 v else v

pub ntohl : Bool → ℕ → ℕ
unfolding swap32
ntohl little v = if little then swap32 v else v

pub is_proxy : ℕ → Bool
is_proxy uid_gid = uid_gid % 2 ^ 32 == proxy_uid

-- Whether connect4 redirects the connection.
pub redirects : Bool → SockAddr → Bool
unfolding ntohl is_proxy
redirects little ctx =
    if ctx.protocol == proxy_tcp
    then if is_proxy ctx.uid_gid
      then false
      else if ntohl little ctx.user_ip4 / 2 ^ 24 == 127
      then false
      else true
    else false

-- The destination that connect4 records.
pub recorded : Bool → SockAddr → OrigDst
unfolding ntohs
recorded little ctx = record { ip = ctx.user_ip4; port = ntohs little (ctx.user_port % 2 ^ 16) }

-- The key under which sockops_prog files it.
unfoldable pub source_key : SockOps → TupleKey
source_key ctx = record { ip = ctx.local_ip4; port = ctx.local_port % 2 ^ 16 }

-- origdst_by_cookie and origdst_by_tuple.
pub record Maps (C : LruHash ℕ OrigDst) (T : LruHash TupleKey OrigDst) : Type 0 where
  pub by_cookie : C.Map
  pub by_tuple : T.Map

-- A run of one of the programs.
pub data Run : Type 0 where
  connects : SockAddr → Run
  sock_op : SockOps → Run

module _ (C : LruHash ℕ OrigDst) (T : LruHash TupleKey OrigDst) (little : Bool) where
  -- The maps, and the context that the kernel goes on with. It always returns 1, which allows.
  pub cgroup_connect4 : Maps C T → SockAddr → Maps C T × SockAddr
  unfolding redirects recorded
  cgroup_connect4 m ctx =
      if redirects little ctx
      then (
        record m { by_cookie = C.update m.by_cookie ctx.cookie (recorded little ctx) },
        record ctx { user_ip4 = ntohl little 0x7F000001; user_port = ntohs little proxy_port },
      )
      else (m, ctx)

  pub sockops_prog : Maps C T → SockOps → Maps C T
  unfolding source_key
  sockops_prog m ctx =
      if ctx.connecting
      then elim (C.lookup m.by_cookie ctx.cookie) [
        | none ↦ m
        | some od ↦ record m {
          by_cookie = C.delete m.by_cookie ctx.cookie;
          by_tuple = T.update m.by_tuple (source_key ctx) od;
        }
      ]
      else m

  pub program : Maps C T → Run → Maps C T
  program m (connects ctx) = (cgroup_connect4 m ctx).0
  program m (sock_op ctx) = sockops_prog m ctx

  -- The maps after runs of the programs, the newest first.
  pub after_runs : Maps C T → List Run → Maps C T
  after_runs m [] = m
  after_runs m (r ∷ rs) = program (after_runs m rs) r
