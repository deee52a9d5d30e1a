-- ===== src/App/Report/Misses.antt =====
-- newResolver and logStats of cmd/app/app.go: the misses that are counted and those that are logged.
use Prim.Native.Nat.{ℕ}
use go_e_bpf_proxy.Base.{
  ◌+◌, ◌*◌, ◌^◌, ◌≤◌, ◌<◌, ◌≡◌, refl, ap, ◌∙◌, inl, inr, true, some, List, [], ◌∷◌, ◌++◌, arith,
  length, length-append, sum_of, All, ℤ, pos_part, Option-cases, Bytes, codes,
}
use go_e_bpf_proxy.Ebpf.Addr.{AddrPort}
use go_e_bpf_proxy.Ebpf.Codec.{tuple_key}
use go_e_bpf_proxy.Capture.Packet.{State}
use go_e_bpf_proxy.Proxy.Resolver.{
  LoopEnd, hit, fault, miss, Resolver, Resolved, not_ipv4, finish, resolve,
}
use go_e_bpf_proxy.Proxy.Resolver.Outcomes.{resolve_loop-Ends, resolve_step}
use go_e_bpf_proxy.Logger.Limit.{LogCall, logs}
use go_e_bpf_proxy.Logger.Limit.Account.{reported, enabled_calls, logs_accounted}
use go_e_bpf_proxy.Logger.Limit.Rate.{Within, logs-Within}
use go_e_bpf_proxy.App.Report.{
  miss_log_burst, miss_log_interval, miss_log, Request, Field, text, number, state_string,
  log_stats, warns, miss_calls, resolve_all,
}

-- What one call of Resolve adds to the counter, and to the calls of the miss log.
record Counted (level : ℤ) (r : Resolver) (now : ℕ) (out : Resolver × Resolved) : Type 0 where
  onward : out.0.has_on_miss ≡ r.has_on_miss
  counter : out.0.misses ≡ r.misses + length (miss_calls r.has_on_miss level now out.1)
  at_most : length (miss_calls r.has_on_miss level now out.1) ≤ 1
  enabled :
      enabled_calls (miss_calls r.has_on_miss level now out.1)
      ≡ length (miss_calls r.has_on_miss level now out.1)

finish-Counted :
    (level : ℤ) (r : Resolver) (now : ℕ) (src : AddrPort) (e : LoopEnd)
    → warns level ≡ true
    → r.has_on_miss ≡ true
    → r.misses + 1 < 2 ^ 64
    → Counted level r now (finish r src e)
unfolding finish miss_calls
finish-Counted level r now src (hit k od) on set small = record {
  onward = refl;
  counter = omega arith;
  at_most = omega arith;
  enabled = refl;
}
finish-Counted level r now src (fault k) on set small = record {
  onward = refl;
  counter = omega arith;
  at_most = omega arith;
  enabled = refl;
}
finish-Counted level r now src (miss k) on set small = record {
  onward = refl;
  counter = rw set (omega arith);
  at_most = rw set (omega arith);
  enabled = rw set (rw on (omega arith));
}

skipped-Counted : (level : ℤ) (r : Resolver) (now : ℕ) → Counted level r now (r, not_ipv4)
unfolding miss_calls
skipped-Counted level r now = record {
  onward = refl;
  counter = omega arith;
  at_most = omega arith;
  enabled = refl;
}

resolve-Counted :
    (level : ℤ) (r : Resolver) (q : Request)
    → warns level ≡ true
    → r.has_on_miss ≡ true
    → r.misses + 1 < 2 ^ 64
    → (out : Resolver × Resolved) × (resolve r q.look q.src q.port ≡ some out)
      × Counted level r q.now out
unfolding resolve
resolve-Counted level r q on set small = elim (Option-cases (tuple_key r.little q.src q.port)) [
  | inl e ↦ ((r, not_ipv4), rw (e, resolve) refl, skipped-Counted level r q.now)
  | inr (key, e) ↦
      let source : AddrPort = record { addr = q.src; port = q.port } in
      let (end, eq, how) =
        resolve_loop-Ends (pos_part r.retries + 1) r.retries (q.look key) 0 (omega arith)
          (omega arith) in
      (
        finish r source end,
        resolve_step r q.look q.src q.port key end e eq,
        finish-Counted level r q.now source end on set small,
      )
]

enabled_calls-append :
    (xs ys : List LogCall) → enabled_calls (xs ++ ys) ≡ enabled_calls xs + enabled_calls ys
enabled_calls-append [] ys = omega arith
enabled_calls-append (x ∷ xs) ys = omega (arith, enabled_calls-append xs ys)

-- The same of a run of requests, which always ends.
abbrev Tally : ℤ → Resolver → List Request → Resolver × List LogCall → Type 0
Tally level r qs out =
    (resolve_all level r qs ≡ some out)
    × (out.0.misses ≡ r.misses + length out.1)
    × (length out.1 ≤ length qs)
    × (enabled_calls out.1 ≡ length out.1)

resolve_all-Tally :
    (level : ℤ) (r : Resolver) (qs : List Request)
    → warns level ≡ true
    → r.has_on_miss ≡ true
    → r.misses + length qs < 2 ^ 64
    → (out : Resolver × List LogCall) × Tally level r qs out
unfolding resolve_all
resolve_all-Tally level r [] on set small = ((r, []), (refl, omega arith, omega arith, refl))
resolve_all-Tally level r (q ∷ qs) on set small =
    let (out, e, one) = resolve-Counted level r q on set (omega arith) in
    let (rest, (er, counter, few, enabled)) =
      resolve_all-Tally level out.0 qs on (one.onward ∙ set)
        (omega (arith, one.counter, one.at_most)) in
    let calls = miss_calls r.has_on_miss level q.now out.1 in
    (
      (rest.0, calls ++ rest.1),
      (
        rw (e, resolve_all) (rw er refl),
        omega (arith, length-append calls rest.1, one.counter),
        omega (arith, length-append calls rest.1, one.at_most),
        omega (arith, length-append calls rest.1, enabled_calls-append calls rest.1, one.enabled),
      ),
    )

-- The miss counter of the stats line is exact, although the log of misses is limited: over any run
-- of requests to a fresh resolver with onMiss set, at a level that logs WARN, every Resolve ends, and
-- the first attribute of the stats line is "origdst_lookup_miss" with the number of WARN lines, plus
-- the misses that the lines report as suppressed, plus those that no line has reported yet; and of
-- calls within one minute at most 20 are lines. There are fewer than 2 ^ 63 requests.
pub resolve_all-counted :
    (level : ℤ) (r : Resolver) (qs : List Request) (rejected : ℕ) (st : State)
    → warns level ≡ true
    → r.has_on_miss ≡ true
    → r.misses ≡ 0
    → length qs < 2 ^ 63
    → (out : Resolver × List LogCall) × (resolve_all level r qs ≡ some out)
      × ((rest : List (Bytes × Field)) × ((log_stats out.0 rejected st).attrs
            ≡ (
              codes "origdst_lookup_miss",
              number (
                  length (logs miss_log out.1).1
                  + sum_of reported (logs miss_log out.1).1
                  + (logs miss_log out.1).0.dropped),
            )
              ∷ rest))
      × ((from : ℕ)
          → All (Within from miss_log_interval) out.1
          → length (logs miss_log out.1).1 ≤ 2 * miss_log_burst)
unfolding log_stats
resolve_all-counted level r qs rejected st on set fresh small =
    let (out, (e, counter, few, enabled)) = resolve_all-Tally level r qs on set (omega arith) in
    let n =
      length (logs miss_log out.1).1
      + sum_of reported (logs miss_log out.1).1
      + (logs miss_log out.1).0.dropped in
    let exact : out.0.misses ≡ n = omega (arith, logs_accounted miss_log out.1 (omega arith)) in
    (
      out,
      e,
      (
        (codes "keylog_lines_rejected", number rejected)
            ∷ (codes "capture_state", text (state_string st))
            ∷ [],
        ap
            (λ k.
              (codes "origdst_lookup_miss", number k)
              ∷ ((codes "keylog_lines_rejected", number rejected)
                  ∷ (codes "capture_state", text (state_string st))
                  ∷ []))
            exact,
      ),
      λ from w. (logs-Within from miss_log_interval miss_log out.1 refl w).0,
    )
