-- ===== src/Proxy/Relay.antt =====
-- internal/proxy/relay.go. What `handle` does to the world is a list of actions; `net.DialTimeout`
-- is a function that says for a destination whether the dial fails.
pub mod FailClosed
use Prim.Native.Nat.{ℕ}
use mathlib.Core.Option
use go_e_bpf_proxy.Base.{
  ◌%◌, ◌^◌, ◌≡◌, Bool, true, false, Option, none, some, List, [], ◌∷◌, ◌++◌, Bytes, ℤ, pos, negsuc,
  ltb, if◌then◌else◌,
}
use go_e_bpf_proxy.Ebpf.Addr.{Addr, AddrPort, addr_from_slice, unmap}
use go_e_bpf_proxy.Ebpf.Codec.{TupleKey}
use go_e_bpf_proxy.Proxy.Resolver.{
  Lookup, Resolver, Resolved, to_dst, not_ipv4, lookup_failed, not_found, resolve,
}

-- Which callbacks are set.
pub record Relay : Type 0 where
  pub has_on_dial_err : Bool
  pub has_on_relayed : Bool

-- What RemoteAddr gives: a TCP address with its bytes and its port, which is an int, or another.
pub data Remote : Type 0 where
  tcp : Bytes → ℤ → Remote
  other : Remote

pub data Action : Type 0 where
  set_linger0 close_client : Action
  dial on_dial_err on_relayed splice : AddrPort → Action

-- `linger` says whether the client is a *net.TCPConn.
reset : Bool → List Action
reset linger = if linger then set_linger0 ∷ close_client ∷ [] else close_client ∷ []

pub forward : Relay → (AddrPort → Bool) → AddrPort → List Action
forward rl dial_fails dst =
    dial dst
    ∷ (if dial_fails dst
        then (if rl.has_on_dial_err then on_dial_err dst ∷ [] else []) ++ close_client ∷ []
        else (if rl.has_on_relayed then on_relayed dst ∷ [] else []) ++ splice dst ∷ [])

pub respond : Relay → Bool → (AddrPort → Bool) → Resolved → List Action
unfolding reset forward
respond rl linger dial_fails (to_dst dst) = forward rl dial_fails dst
respond rl linger dial_fails not_ipv4 = reset linger
respond rl linger dial_fails lookup_failed = reset linger
respond rl linger dial_fails not_found = reset linger

pub handle_from :
    Relay
    → Bool
    → (AddrPort → Bool)
    → Resolver
    → (TupleKey → ℕ → Lookup)
    → Addr
    → ℤ
    → Option (Resolver × List Action)
handle_from rl linger dial_fails r look src (negsuc n) = some (r, close_client ∷ [])
handle_from rl linger dial_fails r look src (pos n) =
    if ltb 0xffff n
    then some (r, close_client ∷ [])
    else Option.map (λ (out : Resolver × Resolved). (out.0, respond rl linger dial_fails out.1))
        (resolve r look (unmap src) (n % 2 ^ 16))

-- The resolver after the connection, and what was done with it.
pub handle :
    Relay
    → Bool
    → (AddrPort → Bool)
    → Resolver
    → (TupleKey → ℕ → Lookup)
    → Remote
    → Option (Resolver × List Action)
handle rl linger dial_fails r look other = some (r, close_client ∷ [])
handle rl linger dial_fails r look (tcp bytes port) = elim (addr_from_slice bytes) [
  | none ↦ some (r, close_client ∷ [])
  | some src ↦ handle_from rl linger dial_fails r look src port
]
