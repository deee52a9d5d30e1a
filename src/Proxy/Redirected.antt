-- ===== src/Proxy/Redirected.antt =====
-- The programs of bpf/proxy.bpf.c, the resolver and the relay together. An attempt of the resolver
-- finds the maps as they are after the runs of the programs until then.
use Prim.Native.Nat.{ℕ}
use mathlib.Core.List.{Memᴰ}
use mathlib.Core.List.Memᴰ
use go_e_bpf_proxy.Base.{
  zero, ◌^◌, ◌<◌, ◌≡◌, sym, ap, ◌∙◌, subst, Bool, true, false, Option, none, some, List, [], ◌∷◌,
  All, arith, pos, Bytes, if◌then◌else◌, suc,
}
use go_e_bpf_proxy.Ebpf.Addr.{Addr, addr4, AddrPort, IsAddr4, addr_from_slice, unmap}
use go_e_bpf_proxy.Ebpf.Codec.{TupleKey, OrigDst, tuple_key, addr_port}
use go_e_bpf_proxy.Ebpf.Redirect.{
  LruHash, SockAddr, SockOps, recorded, source_key, Maps, Run, cgroup_connect4, sockops_prog,
  after_runs,
}
use go_e_bpf_proxy.Ebpf.Redirect.Connect.{dialling, IsTaken, redirects-IsTaken, recorded_lem}
use go_e_bpf_proxy.Ebpf.Redirect.History.{IsLruHash, Joined, after_runs-Told}
use go_e_bpf_proxy.Ebpf.Redirect.Join.{KeepsOthers, IsOfOther, IsFromOther, joined_filed}
use go_e_bpf_proxy.Proxy.Resolver.{Lookup, found, missing, Resolved, to_dst, Resolver, resolve}
use go_e_bpf_proxy.Proxy.Resolver.Outcomes.{Promise, resolves, breaks, closes, resolve-Promise}
use go_e_bpf_proxy.Proxy.Relay.{tcp, Action, set_linger0, close_client, handle}
use go_e_bpf_proxy.Proxy.Relay.FailClosed.{
  Served, forwarded, unreachable, dropped_at, dropped, dialled, logging, handle-Served,
}

abbrev pub answer : Option OrigDst → Lookup
answer none = missing
answer (some od) = found od

answer_found : (o : Option OrigDst) (od : OrigDst) → answer o ≡ found od → o ≡ some od
answer_found none od h = cc
answer_found (some w) od h = cc

found_injective : {a b : OrigDst} → found a ≡ found b → a ≡ b
found_injective e = cc

some_injective : {a b : TupleKey} → some a ≡ some b → a ≡ b
some_injective e = cc

reset_dials_none :
    (linger : Bool) (dst : AddrPort)
    → ¬ (Memᴰ dst (dialled (if linger then set_linger0 ∷ close_client ∷ [] else close_client ∷ [])))
unfolding dialled
reset_dials_none true dst m = Memᴰ.not-nil m
reset_dials_none false dst m = Memᴰ.not-nil m

-- What is dialled is what some answer says.
dialled-Served :
    {r : Resolver} {linger : Bool} {dial_fails : AddrPort → Bool} {answers : ℕ → Lookup}
    {acts : List Action} (dst : AddrPort)
    → Served r linger dial_fails answers acts
    → Memᴰ dst (dialled acts)
    → (k : ℕ) × (od : OrigDst) × (answers k ≡ found od) × (addr_port r.little od ≡ dst)
unfolding dialled
dialled-Served dst (forwarded k od le before answered reaches acts_are) m =
    let at = subst (λ a. Memᴰ dst (dialled a)) acts_are m in
    (k, od, answered, sym (Memᴰ.eq_of_singleton at))
dialled-Served dst (unreachable k od le before answered fails acts_are) m =
    let at = subst (λ a. Memᴰ dst (dialled a)) acts_are m in
    (k, od, answered, sym (Memᴰ.eq_of_singleton at))
dialled-Served {linger = linger} dst (dropped_at k le before broke acts_are) m =
    absurd (reset_dials_none linger dst (subst (λ a. Memᴰ dst (dialled a)) acts_are m))
dialled-Served {linger = linger} dst (dropped before acts_are) m =
    absurd (reset_dials_none linger dst (subst (λ a. Memᴰ dst (dialled a)) acts_are m))

-- If the first answer is a value, that decides.
first_decides :
    (r : Resolver) (look : ℕ → Lookup) (src : AddrPort) (od : OrigDst) (out : Resolver × Resolved)
    → look 0 ≡ found od
    → Promise r look src out
    → out ≡ (r, to_dst (addr_port r.little od))
first_decides r look src od out h (resolves zero od' le before hit_at) =
    ap (λ o. (r, to_dst (addr_port r.little o))) (found_injective (sym hit_at ∙ h))
first_decides r look src od out h (resolves (suc k) od' le before hit_at) =
    let miss = before 0 (omega arith) in cc
first_decides r look src od out h (breaks zero le before broke) = cc
first_decides r look src od out h (breaks (suc k) le before broke) =
    let miss = before 0 (omega arith) in cc
first_decides r look src od out h (closes before) = let miss = before 0 (omega arith) in cc

module _ (C : LruHash ℕ OrigDst) (T : LruHash TupleKey OrigDst) (lru_c : IsLruHash C)
    (lru_t : IsLruHash T) where
  -- A TCP connection of the application to a.b.c.d and a port outside 127.0.0.0/8 resolves to just
  -- that destination: connect4 takes it, its socket connects from a source, the relay asks for that
  -- source, and Resolve returns a.b.c.d and the port at its first attempt, whatever the programs did
  -- before, for other sockets in between, and for other sources since. The maps drop nothing.
  pub resolve-redirected :
      KeepsOthers C
      → KeepsOthers T
      → (r : Resolver) (m : Maps C T) (a b c d port : ℕ) (conn : SockAddr)
        (between after : List Run) (ctx : SockOps) (src : Addr) (src_port : ℕ)
      → IsAddr4 (addr4 a b c d)
      → port < 2 ^ 16
      → IsTaken a conn
      → ctx.cookie ≡ conn.cookie
      → ctx.connecting ≡ true
      → IsAddr4 src
      → tuple_key r.little src src_port ≡ some (source_key ctx)
      → All (IsOfOther conn.cookie) between
      → All (IsFromOther (source_key ctx)) after
      → let m1 = (cgroup_connect4 C T r.little m (dialling r.little a b c d port conn)).0 in
        let m2 = sockops_prog C T r.little (after_runs C T r.little m1 between) ctx in
        let m3 = after_runs C T r.little m2 after in
        resolve r (λ key attempt. answer (T.lookup m3.by_tuple key)) src src_port
        ≡ some (r, to_dst (record { addr = addr4 a b c d; port = port }))
  unfolding dialling
  resolve-redirected kc kt r m a b c d port conn between after ctx src src_port v4 small on same
        connecting src4 from others elsewhere =
      let at_dst = dialling r.little a b c d port conn in
      let m1 = (cgroup_connect4 C T r.little m at_dst).0 in
      let m2 = sockops_prog C T r.little (after_runs C T r.little m1 between) ctx in
      let m3 = after_runs C T r.little m2 after in
      let filed =
        joined_filed C T r.little lru_c lru_t kc kt m at_dst between after ctx
          (redirects-IsTaken r.little a b c d port conn v4 on) same connecting others elsewhere in
      let (key, out, ek, er, promise) =
        resolve-Promise r (λ k attempt. answer (T.lookup m3.by_tuple k)) src src_port src4 in
      let key_same : key ≡ source_key ctx = some_injective (sym ek ∙ from) in
      let at_first : answer (T.lookup m3.by_tuple key) ≡ found (recorded r.little at_dst) =
        ap (λ k. answer (T.lookup m3.by_tuple k)) key_same ∙ ap answer filed in
      let decided =
        first_decides r (λ attempt. answer (T.lookup m3.by_tuple key))
          (record { addr = src; port = src_port }) (recorded r.little at_dst) out at_first
          promise in
      er
      ∙ ap some decided
      ∙ ap (λ dst. some (r, to_dst dst)) (recorded_lem r.little a b c d port conn v4 small)

  -- Whatever the relay dials for an IPv4 source is a destination that connect4 recorded for a socket
  -- which then connected from that source, as the maps stood at one of the resolver's attempts. The
  -- maps start empty and may drop entries at any time; `runs` are the programs' runs before an attempt.
  pub handle-Joined :
      (r : Resolver) (linger : Bool) (dial_fails : AddrPort → Bool) (m : Maps C T)
      (runs : ℕ → List Run) (bytes : Bytes) (port : ℕ) (src : Addr)
      → ((c : ℕ) → C.lookup m.by_cookie c ≡ none)
      → ((k : TupleKey) → T.lookup m.by_tuple k ≡ none)
      → addr_from_slice bytes ≡ some src
      → IsAddr4 (unmap src)
      → port < 2 ^ 16
      → (r' : Resolver) × (acts : List Action) × (handle logging linger dial_fails r
            (λ key attempt.
              answer (T.lookup (after_runs C T r.little m (runs attempt)).by_tuple key))
            (tcp bytes (pos port))
          ≡ some (r', acts))
        × ((dst : AddrPort)
            → Memᴰ dst (dialled acts)
            → (key : TupleKey) × (od : OrigDst) × (attempt : ℕ) × (tuple_key r.little
                  (unmap src)
                  port
                ≡ some key)
              × Joined r.little key od (runs attempt)
              × (addr_port r.little od ≡ dst))
  unfolding dialled
  handle-Joined r linger dial_fails m runs bytes port src ec et from v4 small =
      let look : TupleKey → ℕ → Lookup =
        λ key attempt. answer (T.lookup (after_runs C T r.little m (runs attempt)).by_tuple key) in
      let (key, out, acts, ek, eh, promise, served) =
        handle-Served linger dial_fails r look bytes port src from v4 small in
      (
        out.0,
        acts,
        eh,
        λ dst at.
            let (k, od, answered, decodes) = dialled-Served dst served at in
            let maps = after_runs C T r.little m (runs k) in
            let told = after_runs-Told r.little C T lru_c lru_t m (runs k) ec et in
            (
              key,
              od,
              k,
              ek,
              told.tuples key (answer_found (T.lookup maps.by_tuple key) od answered),
              decodes,
            ),
      )
