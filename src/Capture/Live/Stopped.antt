-- ===== src/Capture/Live/Stopped.antt =====
-- internal/capture/live.go: that Stop returns, and that nothing is written to the Writer behind it.
use Prim.Native.Nat.{ℕ}
use go_e_bpf_proxy.Base.{
  zero, suc, ◌+◌, ◌≤◌, ◌≡◌, refl, sym, ◌∙◌, subst, ◌⊎◌, inl, inr, Bool, true, false, arith,
}
use go_e_bpf_proxy.Capture.Live.Threads.{
  Copier, reading, handing, ending, gone, not_called, waits_done, returned, Threads, Step, packet,
  read_fails, hand_on, hand_last, close_done, stop, stop_returns, Reach, start, later, Steps,
  none_yet, one_more,
}

-- The steps that run still takes once the handle is closed, and the WritePacket calls among them.
abbrev left : Copier → ℕ
left (reading true) = 4
left (reading false) = 2
left handing = 3
left ending = 1
left gone = 0

abbrev writes_left : Copier → ℕ
writes_left (reading true) = 1
writes_left handing = 1
writes_left c = 0

-- How far Stop is, and what that says of run.
data Phase (t : Threads) : Type 0 where
  before : t.stopper ≡ not_called → t.handle_open ≡ true → t.late_writes ≡ 0 → Phase t
  closing :
      t.stopper ≡ waits_done
      → t.handle_open ≡ false
      → t.late_writes + writes_left t.copier ≤ 1
      → Phase t
  over : t.stopper ≡ returned → t.copier ≡ gone → t.late_writes ≤ 1 → Phase t

writes_left-le : (c : Copier) → writes_left c ≤ 1
writes_left-le (reading true) = omega arith
writes_left-le (reading false) = omega arith
writes_left-le c = omega arith

Step-Phase : {s t : Threads} → Step s t → Phase s → Phase t
Step-Phase (packet h) (before a b c) = before a b c
Step-Phase {s} (packet h) (closing a b c) =
    closing a b (subst (λ x. s.late_writes + writes_left x ≤ 1) h c)
Step-Phase (packet h) (over a g c) = absurd (let e = sym h ∙ g in cc)
Step-Phase (read_fails h) (before a b c) = before a b c
Step-Phase (read_fails h) (closing a b c) = closing a b (omega arith)
Step-Phase (read_fails h) (over a g c) = absurd (let e = sym h ∙ g in cc)
Step-Phase (hand_on h) (before a b c) = before a b (rw b c)
Step-Phase {s} (hand_on h) (closing a b c) =
    let one = subst (λ x. s.late_writes + writes_left x ≤ 1) h c in
    closing a b (rw (b) (omega arith))
Step-Phase (hand_on h) (over a g c) = absurd (let e = sym h ∙ g in cc)
Step-Phase (hand_last h) (before a b c) = before a b (rw b c)
Step-Phase {s} (hand_last h) (closing a b c) =
    let one = subst (λ x. s.late_writes + writes_left x ≤ 1) h c in
    closing a b (rw (b) (omega arith))
Step-Phase (hand_last h) (over a g c) = absurd (let e = sym h ∙ g in cc)
Step-Phase (close_done h) (before a b c) = before a b c
Step-Phase (close_done h) (closing a b c) = closing a b (omega arith)
Step-Phase (close_done h) (over a g c) = absurd (let e = sym h ∙ g in cc)
Step-Phase {s} (stop h) (before a b c) = closing refl refl (omega (arith, writes_left-le s.copier))
Step-Phase (stop h) (closing a b c) = absurd (let e = sym h ∙ a in cc)
Step-Phase (stop h) (over a g c) = absurd (let e = sym h ∙ a in cc)
Step-Phase (stop_returns h g) (before a b c) = absurd (let e = sym h ∙ a in cc)
Step-Phase (stop_returns h g) (closing a b c) = over refl g (omega arith)
Step-Phase (stop_returns h g) (over a _ c) = absurd (let e = sym h ∙ a in cc)

Reach-Phase : {t : Threads} → Reach t → Phase t
Reach-Phase start = before refl refl refl
Reach-Phase (later past st) = Step-Phase st (Reach-Phase past)

-- A wait of Stop: the handle is closed, and run may take so many more steps.
abbrev Waits : ℕ → Threads → Type 0
Waits n t = (left t.copier + 1 ≤ n) × (t.handle_open ≡ false) × (t.stopper ≡ waits_done)

left-reading : (b : Bool) → 2 ≤ left (reading b)
left-reading true = omega arith
left-reading false = omega arith

left-le : (c : Copier) → left c ≤ 4
left-le (reading true) = omega arith
left-le (reading false) = omega arith
left-le c = omega arith

-- With the handle closed every step brings the end nearer.
Step-Waits :
    {s t : Threads} (n : ℕ) → Step s t → Waits (suc n) s → (t.stopper ≡ returned) ⊎ Waits n t
Step-Waits n (packet h) (few, b, a) =
    inr (omega (arith, subst (λ c. left c + 1 ≤ suc n) h few), b, a)
Step-Waits n (read_fails {b = early} h) (few, b, a) =
    inr (omega (arith, left-reading early, subst (λ c. left c + 1 ≤ suc n) h few), b, a)
Step-Waits n (hand_on h) (few, b, a) =
    inr (rw b (omega (arith, subst (λ c. left c + 1 ≤ suc n) h few)), b, a)
Step-Waits n (hand_last h) (few, b, a) =
    inr (omega (arith, subst (λ c. left c + 1 ≤ suc n) h few), b, a)
Step-Waits n (close_done h) (few, b, a) =
    inr (omega (arith, subst (λ c. left c + 1 ≤ suc n) h few), b, a)
Step-Waits n (stop h) (few, b, a) = absurd (let e = sym h ∙ a in cc)
Step-Waits n (stop_returns h g) w = inl refl

-- Behind Stop nothing moves.
no_step : {t u : Threads} → t.stopper ≡ returned → t.copier ≡ gone → Step t u → ⊥
no_step a g (packet h) = let e = sym h ∙ g in cc
no_step a g (read_fails h) = let e = sym h ∙ g in cc
no_step a g (hand_on h) = let e = sym h ∙ g in cc
no_step a g (hand_last h) = let e = sym h ∙ g in cc
no_step a g (close_done h) = let e = sym h ∙ g in cc
no_step a g (stop h) = let e = sym h ∙ a in cc
no_step a g (stop_returns h k) = let e = sym h ∙ a in cc

returned-gone : {t : Threads} → Phase t → t.stopper ≡ returned → t.copier ≡ gone
returned-gone (before a b c) h = let e = sym a ∙ h in cc
returned-gone (closing a b c) h = let e = sym a ∙ h in cc
returned-gone (over a g c) h = g

waits-closed : {t : Threads} → Phase t → t.stopper ≡ waits_done → t.handle_open ≡ false
waits-closed (before a b c) h = let e = sym a ∙ h in cc
waits-closed (closing a b c) h = b
waits-closed (over a g c) h = let e = sym a ∙ h in cc

late : {t : Threads} → Phase t → t.late_writes ≤ 1
late (before a b c) = omega arith
late (closing a b c) = omega arith
late (over a g c) = c

-- A wait over some steps.
data Waited (n k : ℕ) (t : Threads) : Type 0 where
  waits_on : (m : ℕ) → m + k ≡ n → Waits m t → Waited n k t
  ends : k ≤ n → t.stopper ≡ returned → Waited n k t

Waited-next : {t u : Threads} (n k : ℕ) → Phase t → Step t u → Waited n k t → Waited n (suc k) u
Waited-next n k ph st (waits_on zero e w) = absurd (omega arith)
Waited-next n k ph st (waits_on (suc m) e w) = elim (Step-Waits m st w) [
  | inl ret ↦ ends (omega arith) ret
  | inr more ↦ waits_on m (omega arith) more
]
Waited-next n k ph st (ends le ret) = absurd (no_step ret (returned-gone ph ret) st)

Steps-Waited :
    {s t : Threads} (n k : ℕ) → Phase s → Steps s k t → Waits n s → Waited n k t × Phase t
Steps-Waited n k ph none_yet w = (waits_on n (omega arith) w, ph)
Steps-Waited n k ph (one_more steps st) w =
    let (waited, now) = Steps-Waited n _ ph steps w in
    (Waited-next n _ now st waited, Step-Phase st now)

-- Some thread goes on until Stop has returned.
next : (t : Threads) → t.stopper ≡ waits_done → (u : Threads) × Step t u
next t a = copier_next t a (t.copier) refl
  where
    copier_next :
        (t : Threads)
        → t.stopper ≡ waits_done
        → (c : Copier) → t.copier ≡ c
        → (u : Threads) × Step t u
    copier_next t a (reading b) h = (_, read_fails h)
    copier_next t a handing h = (_, hand_on h)
    copier_next t a ending h = (_, close_done h)
    copier_next t a gone h = (_, stop_returns a h)

Waited-le : {t : Threads} (n k : ℕ) → Waited n k t → k ≤ n
Waited-le n k (waits_on m e w) = omega arith
Waited-le n k (ends le ret) = le

-- In any interleaving of run with a Stop: at most one packet is handed to WritePacket with the
-- handle closed; once Stop has called Close on the handle, run and Stop take at most five steps more
-- and one of them can go on until Stop has returned; and once it has returned run is gone and
-- nothing goes on, so that nothing is written to the Writer any more.
pub Reach-stopped :
    {t : Threads}
    → Reach t
    → (t.late_writes ≤ 1)
      × (t.stopper ≡ waits_done
          → ((k : ℕ) (u : Threads) → Steps t k u → k ≤ 5) × ((u : Threads) × Step t u))
      × (t.stopper ≡ returned → (t.copier ≡ gone) × ((u : Threads) → Step t u → ⊥))
Reach-stopped {t} past =
    let ph = Reach-Phase past in
    (
      late ph,
      λ a. (
        λ k u steps.
            Waited-le 5 k
              (Steps-Waited 5 k ph steps (omega (arith, left-le t.copier), waits-closed ph a, a)).0,
        next t a,
      ),
      λ a. let g = returned-gone ph a in (g, λ u st. no_step a g st),
    )
