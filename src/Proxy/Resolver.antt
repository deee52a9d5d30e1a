-- ===== src/Proxy/Resolver.antt =====
-- internal/proxy/resolver.go. The eBPF map may change between two lookups, so what a lookup answers
-- is a function of its attempt.
pub mod Outcomes
use Prim.Native.Nat.{ℕ}
use mathlib.Core.Option
use go_e_bpf_proxy.Base.{
  zero, suc, ◌+◌, ◌≡◌, Bool, true, false, Option, none, some, List, [], ◌∷◌, ◌++◌, ℤ, pos, pos_part,
  leb_ℤ, add64, if◌then◌else◌,
}
use go_e_bpf_proxy.Ebpf.Addr.{Addr, AddrPort}
use go_e_bpf_proxy.Ebpf.Codec.{TupleKey, OrigDst, tuple_key, addr_port}

-- `missing` is an error that is ErrKeyNotExist, `broken` any other.
pub data Lookup : Type 0 where
  found : OrigDst → Lookup
  missing : Lookup
  broken : Lookup

pub data Resolved : Type 0 where
  to_dst : AddrPort → Resolved
  not_ipv4 : Resolved
  lookup_failed : Resolved
  not_found : Resolved

-- `retries` is an int that may be negative. `misses` is a uint64. `missed` are the calls of onMiss,
-- if it is set, oldest first.
pub record Resolver : Type 0 where
  pub little : Bool
  pub retries : ℤ
  pub misses : ℕ
  pub has_on_miss : Bool
  pub missed : List AddrPort

-- How the loop of Resolve ends, and in which attempt.
pub data LoopEnd : Type 0 where
  hit : ℕ → OrigDst → LoopEnd
  fault : ℕ → LoopEnd
  miss : ℕ → LoopEnd

-- `for attempt := 0; ; attempt++`, on fuel. Behind a miss that is not the last it sleeps.
pub resolve_loop : ℕ → ℤ → (ℕ → Lookup) → ℕ → Option LoopEnd
resolve_loop zero retries look attempt = none
resolve_loop (suc fuel) retries look attempt = elim (look attempt) [
  | found od ↦ some (hit attempt od)
  | broken ↦ some (fault attempt)
  | missing ↦ elim (leb_ℤ retries (pos attempt)) [
    | true ↦ some (miss attempt)
    | false ↦ resolve_loop fuel retries look (attempt + 1)
  ]
]

-- What Resolve does at the end of its loop.
unfoldable pub finish : Resolver → AddrPort → LoopEnd → Resolver × Resolved
finish r src (hit k od) = (r, to_dst (addr_port r.little od))
finish r src (fault k) = (r, lookup_failed)
finish r src (miss k) = (
  record r {
    misses = add64 r.misses 1;
    missed = if r.has_on_miss then r.missed ++ src ∷ [] else r.missed;
  },
  not_found,
)

-- `look key` is the map as the attempts find it. The fuel is one more than the retries.
unfoldable pub resolve :
    Resolver → (TupleKey → ℕ → Lookup) → Addr → ℕ → Option (Resolver × Resolved)
resolve r look src_ip src_port = elim (tuple_key r.little src_ip src_port) [
  | none ↦ some (r, not_ipv4)
  | some key ↦
      Option.map (finish r (record { addr = src_ip; port = src_port }))
        (resolve_loop (pos_part r.retries + 1) r.retries (look key) 0)
]
