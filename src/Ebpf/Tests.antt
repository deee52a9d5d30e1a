-- ===== src/Ebpf/Tests.antt =====
-- The codec on 10.0.0.1:443, and the loader.
use Prim.Native.Nat.{ℕ}
use go_e_bpf_proxy.Base.{
  ◌≡◌, ◌≢◌, ◌↔◌, ◌⊎◌, ◌<◌, ◌^◌, Bool, true, false, not, ◌&&◌, ◌||◌, none, some, List, [], ◌++◌,
  Bytes, codes, arith,
}
use go_e_bpf_proxy.Ebpf.Addr.{Addr, addr4, IsAddr4}
use go_e_bpf_proxy.Ebpf.Codec.{OrigDst, orig_dst, addr_port, addr_port-orig_dst}
use go_e_bpf_proxy.FilePath.{clean, render}
use go_e_bpf_proxy.Ebpf.Loader.{
  Config, validate, sockops, Effect, link_attached, tuple_unpinned, absent, Loader, load,
}
use go_e_bpf_proxy.Ebpf.Loader.PinDir.{bpffs, validate_iff}
use go_e_bpf_proxy.Ebpf.Loader.Undo.{pin_dir, before, after, life, Undone, is_valid, life-Undone}

abbrev https : ℕ
https = 443

abbrev http : ℕ
http = 80

abbrev host : Addr
host = addr4 10 0 0 1

host-IsAddr4 : IsAddr4 host
host-IsAddr4 = omega arith

addr_port-orig_dst_example :
    (od : OrigDst) × (orig_dst true host 443 ≡ some od)
    × (addr_port true od ≡ record { addr = host; port = 443 })
    × (od.ip < 2 ^ 32)
addr_port-orig_dst_example = addr_port-orig_dst true host 443 host-IsAddr4

-- A pin dir that leaves bpffs and comes back.
abbrev config : Config
config = record {
  cgroup_path = codes "/sys/fs/cgroup/pod";
  pin_dir = codes "/sys/fs/bpf/../bpf/proxy/";
  proxy_uid = 1337;
  proxy_port = 15001;
}

validate_iff_example : (validate config ≡ none) ↔ (
    (config.cgroup_path ≢ [])
    × ((below : List Bytes) × (clean config.pin_dir ≡ render true (below ++ bpffs)))
    × (config.proxy_uid ≢ 0)
    × (config.proxy_port ≢ 0))
validate_iff_example = validate_iff config

-- The second program cannot be attached, and a map cannot be unpinned.
abbrev faulty : Effect → Bool
faulty (link_attached sockops) = true
faulty tuple_unpinned = true
faulty e = false

life-Undone_example :
    ((l : Loader) × ((load faulty config absent).1 ≡ some l)
      × Undone faulty false (after faulty (before false) (life faulty config absent)))
    ⊎ (((load faulty config absent).1 ≡ none)
        × (after faulty (before false) (life faulty config absent) pin_dir
            ≡ (false || (is_valid (validate config) && not false && not false))))
life-Undone_example = life-Undone faulty config false
