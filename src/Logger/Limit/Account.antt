-- ===== src/Logger/Limit/Account.antt =====
-- What the limiter counts.
use Prim.Native.Nat.{ℕ}
use go_e_bpf_proxy.Base.{
  ◌+◌, ◌^◌, ◌<◌, ◌≡◌, refl, inl, inr, ap, ◌∙◌, true, false, Option, none, some, List, [], ◌∷◌,
  arith, length, sum_of, leb, pos, leb_ℤ, add64, if◌then◌else◌, Bool-cases,
}
use go_e_bpf_proxy.Logger.Limit.{Limiter, window_at, admit, LogCall, log, emitted, logs}

-- The number in a record, 0 if there is none.
abbrev pub reported : Option ℕ → ℕ
reported none = 0
reported (some n) = n

-- How many calls are at an enabled level.
abbrev pub enabled_calls : List LogCall → ℕ
enabled_calls [] = 0
enabled_calls (c ∷ cs) = (if c.enabled then 1 else 0) + enabled_calls cs

window_at-dropped : (lim : Limiter) (now : ℕ) → (window_at lim now).dropped ≡ lim.dropped
unfolding window_at
window_at-dropped lim now = ground arith

-- One call of log, by its outcome.
pub data LogCase (lim : Limiter) (c : LogCall) : Type 0 where
  disabled : c.enabled ≡ false → log lim c ≡ (lim, none) → LogCase lim c
  drops :
      (l : Limiter)
      → c.enabled ≡ true
      → leb_ℤ (window_at lim c.now).burst (pos (window_at lim c.now).kept) ≡ true
      → l ≡ record (window_at lim c.now) { dropped = add64 (window_at lim c.now).dropped 1 }
      → log lim c ≡ (l, none)
      → LogCase lim c
  emits :
      (l : Limiter) (suppressed : Option ℕ)
      → c.enabled ≡ true
      → leb_ℤ (window_at lim c.now).burst (pos (window_at lim c.now).kept) ≡ false
      → l ≡ record (window_at lim c.now) { kept = (window_at lim c.now).kept + 1; dropped = 0 }
      → reported suppressed ≡ (window_at lim c.now).dropped
      → log lim c ≡ (l, some suppressed)
      → LogCase lim c

reported_lem : (n : ℕ) → reported (if leb 1 n then some n else none) ≡ n
reported_lem n = ground arith

pub log_cases : (lim : Limiter) (c : LogCall) → LogCase lim c
unfolding log admit
log_cases lim c = elim (Bool-cases c.enabled) [
  | inr off ↦ disabled off (rw off refl)
  | inl on ↦
      elim (Bool-cases (leb_ℤ (window_at lim c.now).burst (pos (window_at lim c.now).kept))) [
        | inl full ↦ drops _ on full refl (rw (on, full) refl)
        | inr free ↦
            emits _
              (if leb 1 (window_at lim c.now).dropped
                then some (window_at lim c.now).dropped
                else none)
              on free refl (reported_lem (window_at lim c.now).dropped) (rw (on, free) refl)
      ]
]

pub logs_nil : (lim : Limiter) → logs lim [] ≡ (lim, [])
unfolding logs
logs_nil lim = refl

module _ (lim l : Limiter) (c : LogCall) (cs : List LogCall) where
  pub logs_silent : log lim c ≡ (l, none) → logs lim (c ∷ cs) ≡ logs l cs
  unfolding logs
  logs_silent e = ap (λ out. ((logs out.0 cs).0, emitted out.1 (logs out.0 cs).1)) e

  pub logs_emit :
      (suppressed : Option ℕ)
      → log lim c ≡ (l, some suppressed)
      → logs lim (c ∷ cs) ≡ ((logs l cs).0, suppressed ∷ (logs l cs).1)
  unfolding logs
  logs_emit suppressed e = ap (λ out. ((logs out.0 cs).0, emitted out.1 (logs out.0 cs).1)) e

-- Every enabled call is accounted for: it is a record that is emitted, or it is in the count of
-- one, or it is among those dropped since, while there are fewer than 2 ^ 63 of them.
pub logs_accounted :
    (lim : Limiter) (cs : List LogCall)
    → lim.dropped + length cs < 2 ^ 63
    → length (logs lim cs).1 + sum_of reported (logs lim cs).1 + (logs lim cs).0.dropped
      ≡ lim.dropped + enabled_calls cs
logs_accounted lim [] h = rw (logs_nil lim) (omega arith)
logs_accounted lim (c ∷ cs) h = elim (log_cases lim c) [
  | disabled off e ↦
      rw (logs_silent lim lim c cs e, off) (logs_accounted lim cs (omega arith) ∙ omega arith)
  | drops l on full eq e ↦
      let count : l.dropped ≡ lim.dropped + 1 =
        ap (λ k. k.dropped) eq ∙ ap (λ n. add64 n 1) (window_at-dropped lim c.now) ∙ omega arith in
      let rest = logs_accounted l cs (omega arith) in
      rw (logs_silent lim l c cs e, on) (rest ∙ omega arith)
  | emits l suppressed on free eq told e ↦
      let reset : l.dropped ≡ 0 = ap (λ k. k.dropped) eq in
      let count = told ∙ window_at-dropped lim c.now in
      let rest = logs_accounted l cs (omega arith) in
      rw (logs_emit lim l c cs suppressed e, on) (omega arith)
]
