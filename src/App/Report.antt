-- ===== src/App/Report.antt =====
-- The log lines of cmd/app/app.go: of a capture that stops, of the stats, of the resolver's misses
-- and of relayed connections. An integer is its 64-bit pattern.
pub mod Owned
pub mod Misses
mod Tests
use Prim.Native.Nat.{ℕ}
use mathlib.Core.Option
use go_e_bpf_proxy.Base.{
  ◌+◌, ◌-◌, ◌*◌, ◌%◌, Bool, true, false, Option, none, some, List, [], ◌∷◌, ◌++◌, Bytes, codes, ℤ,
  pos, negsuc, leb_ℤ, u64_mod, if◌then◌else◌,
}
use go_e_bpf_proxy.Ebpf.Addr.{Addr, AddrPort}
use go_e_bpf_proxy.Ebpf.Codec.{TupleKey}
use go_e_bpf_proxy.Capture.Packet.{Stop, State, active, stopped_max_bytes, not_started_max_bytes}
use go_e_bpf_proxy.Logger.Limit.{Limiter, LogCall}
use go_e_bpf_proxy.Proxy.Resolver.{Lookup, Resolver, Resolved, not_found, resolve}
use go_e_bpf_proxy.Proxy.Relay.{Action, on_dial_err, on_relayed}

pub data Level : Type 0 where
  info warn : Level

pub data Field : Type 0 where
  text : Bytes → Field
  number : ℕ → Field
  addr : AddrPort → Field

pub record Line : Type 0 where
  pub level : Level
  pub message : Bytes
  pub attrs : List (Bytes × Field)

-- State.String
unfoldable pub state_string : State → Bytes
state_string active = codes "active"
state_string stopped_max_bytes = codes "stopped_max_bytes"
state_string not_started_max_bytes = codes "not_started_max_bytes"

-- The pattern of an integer.
unfoldable pub pattern : ℤ → ℕ
pattern (pos n) = n % u64_mod
pattern (negsuc n) = u64_mod - 1 - n % u64_mod

-- a.cfg.MaxBytes - s.Room + s.Bytes
unfoldable pub stop_owned_bytes : ℤ → Stop → ℕ
stop_owned_bytes max_bytes s = (pattern max_bytes + (u64_mod - pattern s.room) + s.bytes) % u64_mod

unfoldable pub log_capture_stop : ℤ → Stop → Line
log_capture_stop max_bytes s = record {
  level = warn;
  message = codes "capture stopped: --max-bytes reached";
  attrs =
      (codes "path", text s.path)
      ∷ (codes "capture_bytes", number s.bytes)
      ∷ (codes "owned_bytes", number (stop_owned_bytes max_bytes s))
      ∷ (codes "max_bytes", number (pattern max_bytes))
      ∷ [];
}

-- logStats, with Misses of the resolver, RejectedCount of the keylog server and captureState.
unfoldable pub log_stats : Resolver → ℕ → State → Line
log_stats r rejected s = record {
  level = info;
  message = codes "stats";
  attrs =
      (codes "origdst_lookup_miss", number r.misses)
      ∷ (codes "keylog_lines_rejected", number rejected)
      ∷ (codes "capture_state", text (state_string s))
      ∷ [];
}

abbrev pub miss_log_burst : ℕ
miss_log_burst = 10

abbrev pub miss_log_interval : ℕ
miss_log_interval = 60 * 1_000_000_000

-- log.Limited(missLogInterval, missLogBurst)
abbrev pub miss_log : Limiter
miss_log = record {
  interval = pos miss_log_interval;
  burst = pos miss_log_burst;
  start = 0;
  kept = 0;
  dropped = 0;
}

-- A connection that asks the resolver, with what the map answers, and the time of its log line.
pub record Request : Type 0 where
  pub src : Addr
  pub port : ℕ
  pub look : TupleKey → ℕ → Lookup
  pub now : ℕ

-- slog.LevelWarn is 4, `level` is the logger's minimum.
unfoldable pub warns : ℤ → Bool
warns level = leb_ℤ level (pos 4)

-- The call of missLog.Warn that onMiss makes, if it is set.
unfoldable pub miss_calls : Bool → ℤ → ℕ → Resolved → List LogCall
miss_calls has_on_miss level now not_found =
    if has_on_miss then (record { enabled = warns level; now = now }) ∷ [] else []
miss_calls has_on_miss level now res = []

-- The resolver of newResolver over a run of requests, and the calls of its missLog, oldest first.
unfoldable pub resolve_all : ℤ → Resolver → List Request → Option (Resolver × List LogCall)
resolve_all level r [] = some (r, [])
resolve_all level r (q ∷ qs) = elim (resolve r q.look q.src q.port) [
  | none ↦ none
  | some out ↦
      Option.map
        (λ (rest : Resolver × List LogCall).
          (rest.0, miss_calls r.has_on_miss level q.now out.1 ++ rest.1))
        (resolve_all level out.0 qs)
]

-- The callbacks of newRelay, on what the relay does.
unfoldable pub relay_lines : List Action → List Line
relay_lines [] = []
relay_lines (on_relayed dst ∷ acts) =
    (record {
      level = info;
      message = codes "connection relayed";
      attrs = (codes "orig_dst", addr dst) ∷ [];
    })
    ∷ relay_lines acts
relay_lines (on_dial_err dst ∷ acts) =
    (record {
      level = warn;
      message = codes "upstream dial failed";
      attrs = (codes "orig_dst", addr dst) ∷ [];
    })
    ∷ relay_lines acts
relay_lines (act ∷ acts) = relay_lines acts
