-- ===== src/Ebpf/Redirect/Connect.antt =====
-- connect4 of bpf/proxy.bpf.c: which connections it redirects, and where to.
use Prim.Native.Nat.{ℕ}
use go_e_bpf_proxy.Base.{
  ◌+◌, ◌*◌, ◌/◌, ◌%◌, ◌^◌, ◌<◌, ◌≡◌, ◌≢◌, ◌↔◌, refl, sym, subst, ap, ◌∙◌, Bool, true, false, arith,
  ◌==◌, Bool-cases, inl, inr, if◌then◌else◌,
}
use go_e_bpf_proxy.Ebpf.Addr.{addr4, IsAddr4}
use go_e_bpf_proxy.Ebpf.Codec.{TupleKey, OrigDst, addr_port}
use go_e_bpf_proxy.Ebpf.Redirect.{
  LruHash, SockAddr, proxy_uid, proxy_port, proxy_tcp, ntohs, ntohl, is_proxy, redirects, recorded,
  Maps, cgroup_connect4,
}

-- The context of a connect to a.b.c.d and a port, as the kernel hands it over: both in network byte
-- order, whatever the machine's.
unfoldable pub dialling : Bool → ℕ → ℕ → ℕ → ℕ → ℕ → SockAddr → SockAddr
dialling little a b c d port ctx = record ctx {
  user_ip4 =
      if little
      then a + b * 2 ^ 8 + c * 2 ^ 16 + d * 2 ^ 24
      else d + c * 2 ^ 8 + b * 2 ^ 16 + a * 2 ^ 24;
  user_port = ntohs little port;
}

first_octet :
    (little : Bool) (a b c d port : ℕ) (ctx : SockAddr)
    → IsAddr4 (addr4 a b c d)
    → ntohl little (dialling little a b c d port ctx).user_ip4 / 2 ^ 24 ≡ a
unfolding ntohl dialling
first_octet true a b c d port ctx h = omega arith
first_octet false a b c d port ctx h = omega arith

abbrev tests : ℕ → ℕ → ℕ → Bool
tests protocol uid octet =
    if protocol == proxy_tcp
    then if uid == proxy_uid then false else if octet == 127 then false else true
    else false

tests_iff :
    (protocol uid octet : ℕ)
    → (tests protocol uid octet ≡ true)
      ↔ ((protocol ≡ proxy_tcp) × (uid ≢ proxy_uid) × (octet ≢ 127))
tests_iff protocol uid octet = ground arith

redirects_lem :
    (little : Bool) (a b c d port : ℕ) (ctx : SockAddr)
    → IsAddr4 (addr4 a b c d)
    → redirects little (dialling little a b c d port ctx)
      ≡ tests ctx.protocol (ctx.uid_gid % 2 ^ 32) a
unfolding redirects is_proxy dialling
redirects_lem little a b c d port ctx h =
    ap (tests ctx.protocol (ctx.uid_gid % 2 ^ 32)) (first_octet little a b c d port ctx h)

pub recorded_lem :
    (little : Bool) (a b c d port : ℕ) (ctx : SockAddr)
    → IsAddr4 (addr4 a b c d)
    → port < 2 ^ 16
    → addr_port little (recorded little (dialling little a b c d port ctx))
      ≡ record { addr = addr4 a b c d; port = port }
unfolding recorded dialling ntohs addr_port
recorded_lem true a b c d port ctx h small = ground arith
recorded_lem false a b c d port ctx h small = ground arith

-- The connections that connect4 takes: TCP, of another user than the proxy's, and to a destination
-- outside 127.0.0.0/8.
abbrev pub IsTaken : ℕ → SockAddr → Type 0
IsTaken a ctx = (ctx.protocol ≡ proxy_tcp) × (ctx.uid_gid % 2 ^ 32 ≢ proxy_uid) × (a ≢ 127)

pub redirects-IsTaken :
    (little : Bool) (a b c d port : ℕ) (ctx : SockAddr)
    → IsAddr4 (addr4 a b c d)
    → IsTaken a ctx
    → redirects little (dialling little a b c d port ctx) ≡ true
redirects-IsTaken little a b c d port ctx h k =
    redirects_lem little a b c d port ctx h ∙ (tests_iff ctx.protocol (ctx.uid_gid % 2 ^ 32) a).1 k

module _ (C : LruHash ℕ OrigDst) (T : LruHash TupleKey OrigDst) (little : Bool) where
  -- What connect4 does with a connect to a.b.c.d and a port. Either it takes the connection: it
  -- records a value that AddrPort decodes to that destination under the socket's cookie, changes
  -- nothing else in the maps, and sends the connection to 127.0.0.1 and the proxy's port. Or it
  -- leaves the maps and the connection as they are.
  pub data Connected (m : Maps C T) (a b c d port : ℕ) (ctx : SockAddr)
      : Maps C T × SockAddr → Type 0 where
    taken :
        (od : OrigDst)
        → IsTaken a ctx
        → addr_port little od ≡ record { addr = addr4 a b c d; port = port }
        → Connected m a b c d port ctx (
          record m { by_cookie = C.update m.by_cookie ctx.cookie od },
          dialling little 127 0 0 1 proxy_port ctx,
        )
    left : ¬ (IsTaken a ctx) → Connected m a b c d port ctx (m, dialling little a b c d port ctx)

  to_relay :
      (a b c d port : ℕ) (ctx : SockAddr)
      → record (dialling little a b c d port ctx) {
        user_ip4 = ntohl little 0x7F000001;
        user_port = ntohs little proxy_port;
      }
        ≡ dialling little 127 0 0 1 proxy_port ctx
  unfolding dialling ntohl ntohs
  to_relay a b c d port ctx = ground arith

  pub connect4_taken :
      (m : Maps C T) (ctx : SockAddr)
      → redirects little ctx ≡ true
      → cgroup_connect4 C T little m ctx ≡ (
        record m { by_cookie = C.update m.by_cookie ctx.cookie (recorded little ctx) },
        record ctx { user_ip4 = ntohl little 0x7F000001; user_port = ntohs little proxy_port },
      )
  unfolding cgroup_connect4
  connect4_taken m ctx h = rw h refl

  pub connect4_left :
      (m : Maps C T) (ctx : SockAddr)
      → redirects little ctx ≡ false
      → cgroup_connect4 C T little m ctx ≡ (m, ctx)
  unfolding cgroup_connect4
  connect4_left m ctx h = rw h refl

  loopback_left :
      (m : Maps C T) (ctx : SockAddr)
      → let at_relay = dialling little 127 0 0 1 proxy_port ctx in
        cgroup_connect4 C T little m at_relay ≡ (m, at_relay)
  loopback_left m ctx =
      connect4_left m (dialling little 127 0 0 1 proxy_port ctx)
        (redirects_lem little 127 0 0 1 proxy_port ctx (omega arith) ∙ ground arith)

  -- What connect4 does with any connect to an IPv4 destination and a port of 16 bits. If it is TCP, not
  -- of the proxy's user, and not to 127.0.0.0/8, connect4 records a value that AddrPort decodes to the
  -- destination under the socket's cookie, changes nothing else in the maps, and sends the connection
  -- to 127.0.0.1 and the proxy's port. Any other it leaves as it is, and the maps too. A second pass
  -- over what it made of the connection changes nothing.
  pub cgroup_connect4-Connected :
      (m : Maps C T) (a b c d port : ℕ) (ctx : SockAddr)
      → IsAddr4 (addr4 a b c d)
      → port < 2 ^ 16
      → let out = cgroup_connect4 C T little m (dialling little a b c d port ctx) in
        Connected m a b c d port ctx out × (cgroup_connect4 C T little out.0 out.1 ≡ out)
  unfolding dialling
  cgroup_connect4-Connected m a b c d port ctx h small =
      let at_dst = dialling little a b c d port ctx in
      let od = recorded little at_dst in
      let same = redirects_lem little a b c d port ctx h in
      let tests = tests_iff ctx.protocol (ctx.uid_gid % 2 ^ 32) a in
      elim (Bool-cases (redirects little at_dst)) [
        | inl on ↦
            let eq =
              connect4_taken m at_dst on
              ∙ ap (λ k. (record m { by_cookie = C.update m.by_cookie ctx.cookie od }, k))
                  (to_relay a b c d port ctx) in
            subst Settled (sym eq) (
              taken od (tests.0 (sym same ∙ on)) (recorded_lem little a b c d port ctx h small),
              loopback_left (record m { by_cookie = C.update m.by_cookie ctx.cookie od }) ctx,
            )
        | inr off ↦
            subst Settled (sym (connect4_left m at_dst off))
              (left (λ k. let on = same ∙ tests.1 k in cc), connect4_left m at_dst off)
      ]
    where
      Settled : Maps C T × SockAddr → Type 0
      Settled out =
          Connected m a b c d port ctx out × (cgroup_connect4 C T little out.0 out.1 ≡ out)
