-- ===== src/Logger/Limit/Rate.antt =====
-- How many records the limiter lets through.
use Prim.Native.Nat.{ℕ}
use go_e_bpf_proxy.Base.{
  ◌+◌, ◌-◌, ◌*◌, ◌≤◌, ◌<◌, ◌≡◌, refl, ap, ◌∙◌, negsuc, subst, ◌⊎◌, inl, inr, Bool, true, false,
  List, [], ◌∷◌, arith, length, All, ℤ, pos, pos_part, leb_ℤ, Bool-cases,
}
use go_e_bpf_proxy.Logger.Limit.{Limiter, elapsed, window_at, LogCall, logs}
use go_e_bpf_proxy.Logger.Limit.Account.{
  disabled, drops, emits, log_cases, logs_nil, logs_silent, logs_emit,
}

-- The call is at `from` or less than `span` later.
abbrev pub Within : ℕ → ℕ → LogCall → Type 0
Within from span c = (from ≤ c.now) × (c.now < from + span)

in_window :
    (start from span now : ℕ)
    → from ≤ start
    → now < from + span
    → leb_ℤ (pos span) (elapsed now start) ≡ false
unfolding elapsed
in_window start from span now after before = ground arith

-- What one call does to the window: `n` records are emitted.
pub record Stays (lim l : Limiter) (n : ℕ) : Type 0 where
  pub start : l.start ≡ lim.start
  pub kept : l.kept ≡ lim.kept + n
  pub room : (n ≡ 0) ⊎ (lim.kept < pos_part lim.burst)

pub record Restarts (lim l : Limiter) (now n : ℕ) : Type 0 where
  pub passed : leb_ℤ lim.interval (elapsed now lim.start) ≡ true
  pub start : l.start ≡ now
  pub kept : l.kept ≡ n
  pub room : (n ≡ 0) ⊎ (0 < pos_part lim.burst)

pub record Stepped (lim : Limiter) (c : LogCall) (cs : List LogCall) : Type 0 where
  pub after : Limiter
  pub n : ℕ
  pub few : n ≤ 1
  pub interval : after.interval ≡ lim.interval
  pub burst : after.burst ≡ lim.burst
  pub count : length (logs lim (c ∷ cs)).1 ≡ n + length (logs after cs).1
  pub window : Stays lim after n ⊎ Restarts lim after c.now n

below_burst : (burst : ℤ) (kept : ℕ) → leb_ℤ burst (pos kept) ≡ false → kept < pos_part burst
below_burst (pos b) kept h = ground arith
below_burst (negsuc b) kept h = absurd (ground arith)

window_cases :
    (lim : Limiter) (now : ℕ)
    → (window_at lim now ≡ lim)
      ⊎ ((leb_ℤ lim.interval (elapsed now lim.start) ≡ true)
          × (window_at lim now ≡ record lim { start = now; kept = 0 }))
unfolding window_at
window_cases lim now = elim (Bool-cases (leb_ℤ lim.interval (elapsed now lim.start))) [
  | inl on ↦ inr (on, rw on refl)
  | inr off ↦ inl (rw off refl)
]

-- A window after which `n` records were counted in it.
counted :
    (lim l : Limiter) (c : LogCall) (cs : List LogCall) (n : ℕ)
    → n ≤ 1
    → ((n ≡ 0) ⊎ ((window_at lim c.now).kept < pos_part (window_at lim c.now).burst))
    → l.interval ≡ (window_at lim c.now).interval
    → l.burst ≡ (window_at lim c.now).burst
    → l.start ≡ (window_at lim c.now).start
    → l.kept ≡ (window_at lim c.now).kept + n
    → length (logs lim (c ∷ cs)).1 ≡ n + length (logs l cs).1
    → Stepped lim c cs
counted lim l c cs n few room i b s k count = elim (window_cases lim c.now) [
  | inl same ↦ record {
    after = l;
    n = n;
    few = few;
    interval = i ∙ ap (λ w. w.interval) same;
    burst = b ∙ ap (λ w. w.burst) same;
    count = count;
    window = inl (record {
      start = s ∙ ap (λ w. w.start) same;
      kept = k ∙ ap (λ w. w.kept + n) same;
      room = subst (λ w. (n ≡ 0) ⊎ (w.kept < pos_part w.burst)) same room;
    });
  }
  | inr (passed, fresh) ↦ record {
    after = l;
    n = n;
    few = few;
    interval = i ∙ ap (λ w. w.interval) fresh;
    burst = b ∙ ap (λ w. w.burst) fresh;
    count = count;
    window = inr (record {
      passed = passed;
      start = s ∙ ap (λ w. w.start) fresh;
      kept = k ∙ ap (λ w. w.kept + n) fresh ∙ omega arith;
      room = subst (λ w. (n ≡ 0) ⊎ (w.kept < pos_part w.burst)) fresh room;
    });
  }
]

step_log : (lim : Limiter) (c : LogCall) (cs : List LogCall) → Stepped lim c cs
step_log lim c cs = elim (log_cases lim c) [
  | disabled off e ↦ record {
    after = lim;
    n = 0;
    few = omega arith;
    interval = refl;
    burst = refl;
    count = rw (logs_silent lim lim c cs e) (omega arith);
    window = inl (record { start = refl; kept = omega arith; room = inl refl });
  }
  | drops l on full eq e ↦
      counted lim l c cs 0 (omega arith) (inl refl) (rw eq refl) (rw eq refl) (rw eq refl)
        (rw eq (omega arith)) (rw (logs_silent lim l c cs e) (omega arith))
  | emits l suppressed on free eq told e ↦
      counted lim l c cs 1 (omega arith)
        (inr (below_burst (window_at lim c.now).burst (window_at lim c.now).kept free)) (rw eq refl)
        (rw eq refl) (rw eq refl) (rw eq refl)
        (rw (logs_emit lim l c cs suppressed e) (omega arith))
]

-- While the window that started in the span is the current one, no more than is left of the burst.
rest_of_window :
    (from span : ℕ) (lim : Limiter) (cs : List LogCall)
    → lim.interval ≡ pos span
    → from ≤ lim.start
    → All (Within from span) cs
    → length (logs lim cs).1 ≤ pos_part lim.burst - lim.kept
rest_of_window from span lim [] i s w = rw (logs_nil lim) (omega arith)
rest_of_window from span lim (c ∷ cs) i s w =
    let step = step_log lim c cs in
    let few = step.few in
    elim step.window [
      | inl stays ↦
          let rest =
            rest_of_window from span step.after cs (step.interval ∙ i) (omega (arith, stays.start))
              w.1 in
          let left = ap pos_part step.burst in
          let k = stays.kept in
          elim stays.room [
            | inl zero_n ↦ rw (step.count) (omega arith)
            | inr free ↦ rw (step.count) (omega arith)
          ]
      | inr restarts ↦
          let now = in_window lim.start from span c.now s w.0.1 in
          let passed = restarts.passed in
          absurd (clash (ap (λ n. leb_ℤ n (elapsed c.now lim.start)) i) passed now)
    ]
  where
    clash : {a b : Bool} → a ≡ b → a ≡ true → b ≡ false → ⊥
    clash e t f = cc

-- What is left of the current window, and one window more.
span_bound :
    (from span : ℕ) (lim : Limiter) (cs : List LogCall)
    → lim.interval ≡ pos span
    → All (Within from span) cs
    → length (logs lim cs).1 ≤ (pos_part lim.burst - lim.kept) + pos_part lim.burst
span_bound from span lim [] i w = rw (logs_nil lim) (omega arith)
span_bound from span lim (c ∷ cs) i w =
    let step = step_log lim c cs in
    let few = step.few in
    let left = ap pos_part step.burst in
    elim step.window [
      | inl stays ↦
          let rest = span_bound from span step.after cs (step.interval ∙ i) w.1 in
          let k = stays.kept in
          elim stays.room [
            | inl zero_n ↦ rw (step.count) (omega arith)
            | inr free ↦ rw (step.count) (omega arith)
          ]
      | inr restarts ↦
          let k = restarts.kept in
          let rest =
            rest_of_window from span step.after cs (step.interval ∙ i)
              (omega (arith, restarts.start, w.0.0)) w.1 in
          elim restarts.room [
            | inl zero_n ↦ rw (step.count) (omega arith)
            | inr free ↦ rw (step.count) (omega arith)
          ]
    ]

-- In any span no longer than the interval the limiter lets at most twice the burst through, whatever
-- it did before, and at most what is left of the burst if the current window started in that span.
pub logs-Within :
    (from span : ℕ) (lim : Limiter) (cs : List LogCall)
    → lim.interval ≡ pos span
    → All (Within from span) cs
    → (length (logs lim cs).1 ≤ 2 * pos_part lim.burst)
      × (from ≤ lim.start → length (logs lim cs).1 ≤ pos_part lim.burst - lim.kept)
logs-Within from span lim cs i w =
    let bound = span_bound from span lim cs i w in
    (omega arith, λ s. rest_of_window from span lim cs i s w)
