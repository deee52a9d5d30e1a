-- ===== src/Logger/Limit.antt =====
-- The limiter of internal/shared/logger/limit.go, and what log of logger.go does with it.
pub mod Rate
pub mod Account
use Prim.Native.Nat.{ℕ}
use go_e_bpf_proxy.Base.{
  suc, ◌+◌, ◌-◌, ◌^◌, Bool, true, false, not, Option, none, some, List, [], ◌∷◌, min, leb, ℤ, pos,
  negsuc, leb_ℤ, add64, if◌then◌else◌,
}

-- `start` is a count of nanoseconds from Go's zero time; `dropped` is an int64 pattern.
pub record Limiter : Type 0 where
  pub interval : ℤ
  pub burst : ℤ
  pub start : ℕ
  pub kept : ℕ
  pub dropped : ℕ

-- now.Sub(start), which saturates at both ends of int64.
pub elapsed : ℕ → ℕ → ℤ
elapsed now start =
    if leb start now
    then pos (min (now - start) (2 ^ 63 - 1))
    else negsuc (min (start - now - 1) (2 ^ 63 - 1))

pub window_at : Limiter → ℕ → Limiter
unfolding elapsed
window_at lim now =
    if leb_ℤ lim.interval (elapsed now lim.start) then record lim { start = now; kept = 0 } else lim

-- Whether to keep the record and, if so, how many were dropped since the last one kept.
pub admit : Limiter → ℕ → Limiter × Bool × ℕ
admit lim now =
    let l = window_at lim now in
    if leb_ℤ l.burst (pos l.kept)
    then (record l { dropped = add64 l.dropped 1 }, false, 0)
    else (record l { kept = l.kept + 1; dropped = 0 }, true, l.dropped)

-- One call of log: whether the level is enabled, and the limiter's clock.
pub record LogCall : Type 0 where
  pub enabled : Bool
  pub now : ℕ

-- What log does through a limiter: the record it emits, if any, with its `suppressed` count, which
-- is left out if it is 0.
pub log : Limiter → LogCall → Limiter × Option (Option ℕ)
log lim c =
    let (l, keep, dropped) = admit lim c.now in
    if not c.enabled
    then (lim, none)
    else if not keep
    then (l, none)
    else (l, some (if leb 1 dropped then some dropped else none))

-- The records emitted, the one of this call first.
abbrev pub emitted : Option (Option ℕ) → List (Option ℕ) → List (Option ℕ)
emitted none outs = outs
emitted (some suppressed) outs = suppressed ∷ outs

pub logs : Limiter → List LogCall → Limiter × List (Option ℕ)
logs lim [] = (lim, [])
logs lim (c ∷ cs) = let rest = logs (log lim c).0 cs in (rest.0, emitted (log lim c).1 rest.1)
