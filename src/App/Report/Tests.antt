-- ===== src/App/Report/Tests.antt =====
-- A capture that stops at its room, and a run of connections that the resolver misses.
use Prim.Native.Nat.{ℕ}
use go_e_bpf_proxy.Base.{
  ◌+◌, ◌*◌, ◌≤◌, ◌≡◌, refl, true, false, some, List, [], ◌∷◌, arith, length, sum_of, All, pos, sym,
  Bytes, codes,
}
use go_e_bpf_proxy.Ebpf.Addr.{addr4}
use go_e_bpf_proxy.Capture.Packet.{Stop, active}
use go_e_bpf_proxy.Capture.Writer.{Writer, admit}
use go_e_bpf_proxy.Capture.Retention.{listed, finished}
use go_e_bpf_proxy.Capture.Retention.Total.{file_bytes}
use go_e_bpf_proxy.Capture.Retention.Tests.{retention, entries, left_room, one_finished}
use go_e_bpf_proxy.Logger.Limit.{LogCall, logs}
use go_e_bpf_proxy.Logger.Limit.Account.{reported}
use go_e_bpf_proxy.Logger.Limit.Rate.{Within}
use go_e_bpf_proxy.Proxy.Resolver.{missing, Resolver}
use go_e_bpf_proxy.App.Report.{
  Field, number, log_capture_stop, log_stats, miss_log, miss_log_burst, miss_log_interval, Request,
  warns, resolve_all,
}
use go_e_bpf_proxy.App.Report.Owned.{stop_line, log_capture_stop-owned}
use go_e_bpf_proxy.App.Report.Misses.{resolve_all-counted}

abbrev full : Writer
full = record {
  calls = [];
  path = [];
  held = [];
  held_bytes = 0;
  pending = [];
  limited = true;
  room = pos 200;
  admitted = 190;
  on_stop = true;
  stopped = false;
  closed = false;
  close_err = [];
  draining = true;
}

abbrev stop : Stop
stop = record { path = []; bytes = 190; room = pos 200 }

stops_full : admit full 60 ≡ (record full { stopped = true }, false, some stop)
unfolding admit
stops_full = refl

log_capture_stop-owned_example :
    log_capture_stop retention.max_bytes stop
    ≡ stop_line [] 190 (sum_of file_bytes (finished retention (listed entries)).0 + 190) (249 + 1)
log_capture_stop-owned_example =
    log_capture_stop-owned retention (listed entries) 249 full 60 (record full { stopped = true })
      stop refl (omega arith) (sym left_room) (omega (arith, one_finished)) stops_full

abbrev request : ℕ → Request
request now = record {
  src = addr4 127 0 0 1;
  port = 5000;
  look = λ key attempt. missing;
  now = now;
}

abbrev requests : List Request
requests = request 1 ∷ request 2 ∷ []

abbrev fresh : Resolver
fresh = record { little = true; retries = pos 1; misses = 0; has_on_miss = true; missed = [] }

at_info : warns (pos 0) ≡ true
unfolding warns
at_info = refl

resolve_all-counted_example :
    (out : Resolver × List LogCall) × (resolve_all (pos 0) fresh requests ≡ some out)
    × ((rest : List (Bytes × Field)) × ((log_stats out.0 3 active).attrs
          ≡ (
            codes "origdst_lookup_miss",
            number (
                length (logs miss_log out.1).1
                + sum_of reported (logs miss_log out.1).1
                + (logs miss_log out.1).0.dropped),
          )
            ∷ rest))
    × ((from : ℕ)
        → All (Within from miss_log_interval) out.1
        → length (logs miss_log out.1).1 ≤ 2 * miss_log_burst)
resolve_all-counted_example =
    resolve_all-counted (pos 0) fresh requests 3 active at_info refl refl (omega arith)
