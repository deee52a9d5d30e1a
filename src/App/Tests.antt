-- ===== src/App/Tests.antt =====
-- A start whose capture cannot read the interface, and a keylog below /run.
use go_e_bpf_proxy.Base.{◌≡◌, true, false, pos, Bytes, codes, bytes_eq, none, ◌↔◌, if◌then◌else◌}
use go_e_bpf_proxy.App.{Resource, Config, Faults, App, close, start}
use go_e_bpf_proxy.App.Counts.{opens, closes, has, Balanced}
use go_e_bpf_proxy.App.Balance.{start-Balanced}
use go_e_bpf_proxy.App.Settings.{float, finite, number, int64_setting, strict_numbers}
use go_e_bpf_proxy.App.Settings.Exact.{Takes, strict_numbers_iff}
use go_e_bpf_proxy.App.Tmpfs.{Statfs, mounted, no_entry, tmpfs_magic}
use go_e_bpf_proxy.App.Tmpfs.Nearest.{Nearest}

abbrev config : Config
config = record { max_bytes = pos 1000; stats_interval = pos 60 }

abbrev faults : Faults
faults = record {
  not_tmpfs = false;
  delete_fails = false;
  load_fails = false;
  attach_fails = false;
  listen_fails = false;
  target_refused = false;
  room_fails = false;
  room_short = false;
  create_fails = false;
  keylog_fails = false;
  live_fails = true;
  close_fails = λ e. true;
}

start-Balanced_example :
    Balanced (start config faults)
    × ((a : App) (r : Resource)
        → (closes r (close config faults a).1 ≡ has a r) × (opens r (close config faults a).1 ≡ 0))
start-Balanced_example = start-Balanced config faults

-- Only /run exists, and it is on tmpfs.
abbrev only_run : Bytes → Statfs
only_run path = if bytes_eq path (codes "/run") then mounted tmpfs_magic else no_entry

-- 1.5 for an int64.
strict_numbers_iff_example :
    (strict_numbers int64_setting (number (float (finite false 3 1))) ≡ none)
    ↔ Takes int64_setting (float (finite false 3 1))
strict_numbers_iff_example = strict_numbers_iff int64_setting (float (finite false 3 1)) tt
