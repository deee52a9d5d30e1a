-- ===== src/Ebpf/Redirect/Tests.antt =====
-- The eBPF programs on a connection to 10.0.0.1:443.
use Prim.Native.Nat.{ℕ}
use native.Mathlib.Decide.{ℕ_discrete}
use go_e_bpf_proxy.Base.{◌≡◌, refl, true, none, List, [], ◌∷◌, arith}
use go_e_bpf_proxy.Ebpf.Codec.{TupleKey, OrigDst}
use go_e_bpf_proxy.Ebpf.Redirect.{
  LruHash, SockAddr, SockOps, proxy_tcp, Maps, Run, connects, sock_op, cgroup_connect4, after_runs,
}
use go_e_bpf_proxy.Ebpf.Redirect.Connect.{dialling, Connected, cgroup_connect4-Connected}
use go_e_bpf_proxy.Ebpf.Redirect.History.{TupleKey-discrete, Told, after_runs-Told}
use go_e_bpf_proxy.Ebpf.Redirect.Table.{table, table-IsLruHash}

abbrev pub cookies : LruHash ℕ OrigDst
cookies = table ℕ_discrete

abbrev pub tuples : LruHash TupleKey OrigDst
tuples = table TupleKey-discrete

abbrev pub no_maps : Maps cookies tuples
no_maps = record { by_cookie = λ c. none; by_tuple = λ k. none }

-- The application's socket.
abbrev pub curl : SockAddr
curl = record { protocol = proxy_tcp; uid_gid = 1000; cookie = 7; user_ip4 = 0; user_port = 0 }

-- It connects from 127.0.0.1:5000.
abbrev pub curl_connects : SockOps
curl_connects = record { connecting = true; cookie = 7; local_ip4 = 0x0100007F; local_port = 5000 }

abbrev pub curl_runs : List Run
curl_runs = sock_op curl_connects ∷ connects (dialling true 10 0 0 1 443 curl) ∷ []

cgroup_connect4-Connected_example :
    let out = cgroup_connect4 cookies tuples true no_maps (dialling true 10 0 0 1 443 curl) in
    Connected cookies tuples true no_maps 10 0 0 1 443 curl out
    × (cgroup_connect4 cookies tuples true out.0 out.1 ≡ out)
cgroup_connect4-Connected_example =
    cgroup_connect4-Connected cookies tuples true no_maps 10 0 0 1 443 curl (omega arith)
      (omega arith)

after_runs-Told_example :
    Told true cookies tuples
      (table-IsLruHash ℕ_discrete)
      (table-IsLruHash TupleKey-discrete)
      (after_runs cookies tuples true no_maps curl_runs)
      curl_runs
after_runs-Told_example =
    after_runs-Told true cookies tuples (table-IsLruHash ℕ_discrete)
      (table-IsLruHash TupleKey-discrete) no_maps curl_runs (λ c. refl) (λ k. refl)
