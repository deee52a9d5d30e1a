-- ===== src/Proxy/Relay/FailClosed.antt =====
-- internal/proxy/relay.go: where the relay forwards a connection to, and where it drops it.
use Prim.Native.Nat.{ℕ}
use go_e_bpf_proxy.Base.{
  ◌%◌, ◌^◌, ◌≤◌, ◌<◌, ◌≡◌, refl, Bool, true, false, some, List, [], ◌∷◌, Bytes, arith, pos,
  pos_part, ltb, Bool-cases, inl, inr, if◌then◌else◌,
}
use go_e_bpf_proxy.Ebpf.Addr.{Addr, AddrPort, IsAddr4, addr_from_slice, unmap}
use go_e_bpf_proxy.Ebpf.Codec.{TupleKey, OrigDst, addr_port, tuple_key}
use go_e_bpf_proxy.Proxy.Resolver.{
  Lookup, found, missing, broken, Resolver, Resolved, to_dst, resolve,
}
use go_e_bpf_proxy.Proxy.Resolver.Outcomes.{Promise, resolves, breaks, closes, resolve-Promise}
use go_e_bpf_proxy.Proxy.Relay.{
  Relay, tcp, Action, set_linger0, close_client, dial, on_dial_err, on_relayed, splice, respond,
  forward, handle_from, handle,
}

-- The destinations that actions dial.
unfoldable pub dialled : List Action → List AddrPort
dialled [] = []
dialled (dial dst ∷ acts) = dst ∷ dialled acts
dialled (_ ∷ acts) = dialled acts

-- What the relay does with a connection from an IPv4 source, `answers` being what the map answers
-- under its key. If the first answer that is no miss, within the retries, is a value, that value's
-- destination is dialled; if the dial succeeds onRelayed is called and the connections are spliced,
-- and if it fails onDialErr is called and the client is closed. If the answer is an error, or all
-- answers are misses, nothing is done but to reset the client.
pub data Served (r : Resolver) (linger : Bool) (dial_fails : AddrPort → Bool) (answers : ℕ → Lookup)
    (acts : List Action) : Type 0 where
  forwarded :
      (k : ℕ) (od : OrigDst)
      → k ≤ pos_part r.retries
      → ((j : ℕ) → j < k → answers j ≡ missing)
      → answers k ≡ found od
      → dial_fails (addr_port r.little od) ≡ false
      → acts
        ≡ dial (addr_port r.little od)
          ∷ on_relayed (addr_port r.little od)
          ∷ splice (addr_port r.little od)
          ∷ []
      → Served r linger dial_fails answers acts
  unreachable :
      (k : ℕ) (od : OrigDst)
      → k ≤ pos_part r.retries
      → ((j : ℕ) → j < k → answers j ≡ missing)
      → answers k ≡ found od
      → dial_fails (addr_port r.little od) ≡ true
      → acts
        ≡ dial (addr_port r.little od) ∷ on_dial_err (addr_port r.little od) ∷ close_client ∷ []
      → Served r linger dial_fails answers acts
  dropped_at :
      (k : ℕ)
      → k ≤ pos_part r.retries
      → ((j : ℕ) → j < k → answers j ≡ missing)
      → answers k ≡ broken
      → acts ≡ (if linger then set_linger0 ∷ close_client ∷ [] else close_client ∷ [])
      → Served r linger dial_fails answers acts
  dropped :
      ((j : ℕ) → j ≤ pos_part r.retries → answers j ≡ missing)
      → acts ≡ (if linger then set_linger0 ∷ close_client ∷ [] else close_client ∷ [])
      → Served r linger dial_fails answers acts

-- With both callbacks set, as the sidecar sets them.
abbrev pub logging : Relay
logging = record { has_on_dial_err = true; has_on_relayed = true }

forward_fails :
    (linger : Bool) (dial_fails : AddrPort → Bool) (dst : AddrPort)
    → dial_fails dst ≡ true
    → respond logging linger dial_fails (to_dst dst)
      ≡ dial dst ∷ on_dial_err dst ∷ close_client ∷ []
unfolding respond forward
forward_fails linger dial_fails dst fails = rw fails refl

forward_reaches :
    (linger : Bool) (dial_fails : AddrPort → Bool) (dst : AddrPort)
    → dial_fails dst ≡ false
    → respond logging linger dial_fails (to_dst dst) ≡ dial dst ∷ on_relayed dst ∷ splice dst ∷ []
unfolding respond forward
forward_reaches linger dial_fails dst reaches = rw reaches refl

respond-Served :
    (r : Resolver) (linger : Bool) (dial_fails : AddrPort → Bool) (answers : ℕ → Lookup)
    (src : AddrPort) {out : Resolver × Resolved}
    → Promise r answers src out
    → Served r linger dial_fails answers (respond logging linger dial_fails out.1)
unfolding respond
respond-Served r linger dial_fails answers src (resolves k od a before h) =
    elim (Bool-cases (dial_fails (addr_port r.little od))) [
      | inl fails ↦ unreachable k od a before h fails (forward_fails linger dial_fails _ fails)
      | inr reaches ↦
          forwarded k od a before h reaches (forward_reaches linger dial_fails _ reaches)
    ]
respond-Served r linger dial_fails answers src (breaks k a before h) = dropped_at k a before h refl
respond-Served r linger dial_fails answers src (closes before) = dropped before refl

handle_step :
    (linger : Bool) (dial_fails : AddrPort → Bool) (r : Resolver) (look : TupleKey → ℕ → Lookup)
    (bytes : Bytes) (port : ℕ) (src : Addr) (out : Resolver × Resolved)
    → addr_from_slice bytes ≡ some src
    → port < 2 ^ 16
    → resolve r look (unmap src) port ≡ some out
    → handle logging linger dial_fails r look (tcp bytes (pos port))
      ≡ some (out.0, respond logging linger dial_fails out.1)
unfolding handle handle_from
handle_step linger dial_fails r look bytes port src out e small h =
    let same : port % 2 ^ 16 ≡ port = omega arith in
    let in_range : ltb 0xffff port ≡ false = ground arith in
    rw (e, handle) (rw in_range (rw same (rw h refl)))

-- A connection whose remote address is an IPv4 address, plain or mapped into IPv6, with a port of
-- 16 bits, to a relay with both callbacks set, is handled by the answers of the map under its key. If
-- the first that is no miss, within the retries, is a value, that value's destination is dialled, and
-- no other; if the dial succeeds onRelayed is called and then splice, and if it fails onDialErr is
-- called and the client is closed. If that answer is an error, or all within the retries are misses,
-- nothing is dialled and the client is only reset. The resolver has counted a miss, and called
-- onMiss if it is set, exactly when all answers are misses.
pub handle-Served :
    (linger : Bool) (dial_fails : AddrPort → Bool) (r : Resolver) (look : TupleKey → ℕ → Lookup)
    (bytes : Bytes) (port : ℕ) (src : Addr)
    → addr_from_slice bytes ≡ some src
    → IsAddr4 (unmap src)
    → port < 2 ^ 16
    → (key : TupleKey) × (out : Resolver × Resolved) × (acts : List Action) × (tuple_key r.little
          (unmap src)
          port
        ≡ some key)
      × (handle logging linger dial_fails r look (tcp bytes (pos port)) ≡ some (out.0, acts))
      × Promise r (look key) (record { addr = unmap src; port = port }) out
      × Served r linger dial_fails (look key) acts
handle-Served linger dial_fails r look bytes port src from_bytes v4 in_range =
    let (key, out, ek, er, promise) = resolve-Promise r look (unmap src) port v4 in
    (
      key,
      out,
      respond logging linger dial_fails out.1,
      ek,
      handle_step linger dial_fails r look bytes port src out from_bytes in_range er,
      promise,
      respond-Served r linger dial_fails (look key) (record { addr = unmap src; port = port })
          promise,
    )
