-- ===== src/Proxy/Tests.antt =====
-- A connection whose destination is found in the second attempt.
use Prim.Native.Nat.{ℕ, zero, suc}
use native.Mathlib.Decide.{ℕ_discrete}
use mathlib.Core.List.{Memᴰ}
use go_e_bpf_proxy.Base.{◌≡◌, ◌≢◌, refl, ap, true, false, some, List, [], ◌∷◌, Bytes, pos, arith}
use go_e_bpf_proxy.Ebpf.Addr.{Addr, addr4, AddrPort, IsAddr4, addr_from_slice, unmap}
use go_e_bpf_proxy.Ebpf.Codec.{TupleKey, OrigDst, tuple_key, addr_port}
use go_e_bpf_proxy.Ebpf.Redirect.{
  Run, connects, sock_op, source_key, cgroup_connect4, sockops_prog, after_runs,
}
use go_e_bpf_proxy.Ebpf.Redirect.Connect.{dialling}
use go_e_bpf_proxy.Ebpf.Redirect.History.{TupleKey-discrete, Joined}
use go_e_bpf_proxy.Ebpf.Redirect.Table.{table-IsLruHash, table-KeepsOthers}
use go_e_bpf_proxy.Ebpf.Redirect.Tests.{cookies, tuples, no_maps, curl, curl_connects, curl_runs}
use go_e_bpf_proxy.Proxy.Resolver.{Lookup, found, missing, Resolver, Resolved, to_dst, resolve}
use go_e_bpf_proxy.Proxy.Resolver.Outcomes.{Promise}
use go_e_bpf_proxy.Proxy.Relay.{tcp, Action, handle}
use go_e_bpf_proxy.Proxy.Relay.FailClosed.{Served, dialled, logging, handle-Served}
use go_e_bpf_proxy.Proxy.Redirected.{answer, resolve-redirected, handle-Joined}

abbrev resolver : Resolver
resolver = record { little = true; retries = pos 3; misses = 0; has_on_miss = true; missed = [] }

abbrev look : TupleKey → ℕ → Lookup
look key zero = missing
look key (suc n) = found (record { ip = 10; port = 443 })

abbrev source : Addr
source = addr4 127 0 0 1

source-IsAddr4 : IsAddr4 source
source-IsAddr4 = omega arith

abbrev bytes : Bytes
bytes = 127 ∷ 0 ∷ 0 ∷ 1 ∷ []

from_bytes : addr_from_slice bytes ≡ some source
unfolding addr_from_slice
from_bytes = refl

unmapped : IsAddr4 (unmap source)
unfolding unmap
unmapped = omega arith

handle-Served_example :
    (key : TupleKey) × (out : Resolver × Resolved) × (acts : List Action) × (tuple_key
        resolver.little
        (unmap source)
        5000
      ≡ some key)
    × (handle logging true (λ dst. false) resolver look (tcp bytes (pos 5000)) ≡ some (out.0, acts))
    × Promise resolver (look key) (record { addr = unmap source; port = 5000 }) out
    × Served resolver true (λ dst. false) (look key) acts
handle-Served_example =
    handle-Served true (λ dst. false) resolver look bytes 5000 source from_bytes unmapped
      (omega arith)

-- The relay and the programs: an application connects to 10.0.0.1:443 from 127.0.0.1:5000.
source_filed : tuple_key true source 5000 ≡ some (source_key curl_connects)
unfolding tuple_key source_key
source_filed = refl

-- Another socket is taken before the first connects, and a third connects afterwards.
abbrev between : List Run
between = connects (dialling true 10 0 0 2 80 (record curl { cookie = 8 })) ∷ []

abbrev later : List Run
later = sock_op (record curl_connects { cookie = 9; local_port = 5001 }) ∷ []

later_elsewhere :
    source_key curl_connects ≢ source_key (record curl_connects { cookie = 9; local_port = 5001 })
unfolding source_key
later_elsewhere e = let same = ap (λ (k : TupleKey). k.port) e in omega arith

resolve-redirected_example :
    let m1 = (cgroup_connect4 cookies tuples true no_maps (dialling true 10 0 0 1 443 curl)).0 in
    let m2 =
      sockops_prog cookies tuples true (after_runs cookies tuples true m1 between) curl_connects in
    let m3 = after_runs cookies tuples true m2 later in
    resolve resolver (λ key attempt. answer (tuples.lookup m3.by_tuple key)) source 5000
    ≡ some (resolver, to_dst (record { addr = addr4 10 0 0 1; port = 443 }))
unfolding dialling
resolve-redirected_example =
    resolve-redirected cookies tuples (table-IsLruHash ℕ_discrete)
      (table-IsLruHash TupleKey-discrete) (table-KeepsOthers ℕ_discrete)
      (table-KeepsOthers TupleKey-discrete) resolver no_maps 10 0 0 1 443 curl between later
      curl_connects source 5000 (omega arith) (omega arith) (refl, (omega arith), (omega arith))
      refl refl source-IsAddr4 source_filed ((omega arith), tt) (later_elsewhere, tt)

handle-Joined_example :
    (r' : Resolver) × (acts : List Action) × (handle logging true
        (λ dst. false)
        resolver
        (λ key attempt.
          answer (tuples.lookup (after_runs cookies tuples true no_maps curl_runs).by_tuple key))
        (tcp bytes (pos 5000))
      ≡ some (r', acts))
    × ((dst : AddrPort)
        → Memᴰ dst (dialled acts)
        → (key : TupleKey) × (od : OrigDst) × (attempt : ℕ) × (tuple_key true (unmap source) 5000
            ≡ some key)
          × Joined true key od curl_runs
          × (addr_port true od ≡ dst))
handle-Joined_example =
    handle-Joined cookies tuples (table-IsLruHash ℕ_discrete) (table-IsLruHash TupleKey-discrete)
      resolver true (λ dst. false) no_maps (λ attempt. curl_runs) bytes 5000 source (λ c. refl)
      (λ k. refl) from_bytes unmapped (omega arith)
