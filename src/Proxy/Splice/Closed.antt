-- ===== src/Proxy/Splice/Closed.antt =====
-- internal/proxy/relay.go: when splice closes the two connections.
use Prim.Native.Nat.{ℕ}
use go_e_bpf_proxy.Base.{suc, ◌+◌, ◌≤◌, ◌<◌, ◌≡◌, ◌≢◌, refl, ap, Bool, arith}
use go_e_bpf_proxy.Proxy.Splice.{
  Ending, Stage, finished, Wire, Move, read, waiting, waited, closed_upstream, returned, Splice,
  Kinds, Step, copy_to_client, copy_to_upstream, wait, close_upstream, close_client, Reach, start,
  later,
}

-- Both goroutines have called wg.Done.
abbrev pub BothDone : Splice → Type 0
BothDone s = (e : Ending) × (f : Ending) × (s.at_client ≡ finished e) × (s.at_upstream ≡ finished f)

abbrev pub Closes : Splice → ℕ → ℕ → Type 0
Closes s client upstream = (s.client_closes ≡ client) × (s.upstream_closes ≡ upstream)

-- How far splice is: in wg.Wait, or past it, with both goroutines done.
pub data Closing (s : Splice) : Type 0 where
  at_wait : s.waiter ≡ waiting → Closes s 0 0 → Closing s
  at_first : s.waiter ≡ waited → BothDone s → Closes s 0 0 → Closing s
  at_second : s.waiter ≡ closed_upstream → BothDone s → Closes s 0 1 → Closing s
  at_end : s.waiter ≡ returned → BothDone s → Closes s 1 1 → Closing s

not_after_done :
    {tcp : Bool} {w v : Wire} {p q : Stage} {e : Ending} → Move tcp w p v q → p ≢ finished e
not_after_done (read c) h = cc
not_after_done mv h = cc

Step-Closing :
    {kinds : Kinds} {s : Splice} {k : ℕ} {t : Splice} → Step kinds s k t → Closing s → Closing t
Step-Closing (copy_to_client mv) (at_wait e closes) = at_wait e closes
Step-Closing (copy_to_client mv) (at_first e (c, u, hc, hu) closes) = absurd (not_after_done mv hc)
Step-Closing (copy_to_client mv) (at_second e (c, u, hc, hu) closes) = absurd (not_after_done mv hc)
Step-Closing (copy_to_client mv) (at_end e (c, u, hc, hu) closes) = absurd (not_after_done mv hc)
Step-Closing (copy_to_upstream mv) (at_wait e closes) = at_wait e closes
Step-Closing (copy_to_upstream mv) (at_first e (c, u, hc, hu) closes) =
    absurd (not_after_done mv hu)
Step-Closing (copy_to_upstream mv) (at_second e (c, u, hc, hu) closes) =
    absurd (not_after_done mv hu)
Step-Closing (copy_to_upstream mv) (at_end e (c, u, hc, hu) closes) = absurd (not_after_done mv hu)
Step-Closing (wait {e} {f} w hc hu) (at_wait _ closes) = at_first refl (e, f, hc, hu) closes
Step-Closing (wait w hc hu) (at_first e _ _) = absurd (ground arith)
Step-Closing (wait w hc hu) (at_second e _ _) = absurd (ground arith)
Step-Closing (wait w hc hu) (at_end e _ _) = absurd (ground arith)
Step-Closing (close_upstream w) (at_first _ done closes) =
    at_second refl done (closes.0, ap suc closes.1)
Step-Closing (close_upstream w) (at_wait e _) = absurd (ground arith)
Step-Closing (close_upstream w) (at_second e _ _) = absurd (ground arith)
Step-Closing (close_upstream w) (at_end e _ _) = absurd (ground arith)
Step-Closing (close_client w) (at_second _ done closes) =
    at_end refl done (ap suc closes.0, closes.1)
Step-Closing (close_client w) (at_wait e _) = absurd (ground arith)
Step-Closing (close_client w) (at_first e _ _) = absurd (ground arith)
Step-Closing (close_client w) (at_end e _ _) = absurd (ground arith)

pub Reach-Closing : {kinds : Kinds} {n r : ℕ} {s : Splice} → Reach kinds n r s → Closing s
Reach-Closing start = at_wait refl (refl, refl)
Reach-Closing (later past st) = Step-Closing st (Reach-Closing past)

pub record Released (s : Splice) : Type 0 where
  pub only_after : 0 < s.client_closes + s.upstream_closes → BothDone s
  pub upstream_first : s.client_closes ≤ s.upstream_closes
  pub once : s.upstream_closes ≤ 1
  pub at_return : s.waiter ≡ returned → s.client_closes ≡ 1

Closing-Released : {s : Splice} → Closing s → Released s
Closing-Released (at_wait e closes) = record {
  only_after = λ h. absurd (omega arith);
  upstream_first = omega arith;
  once = omega arith;
  at_return = λ h. absurd (ground arith);
}
Closing-Released (at_first e done closes) = record {
  only_after = λ h. done;
  upstream_first = omega arith;
  once = omega arith;
  at_return = λ h. absurd (ground arith);
}
Closing-Released (at_second e done closes) = record {
  only_after = λ h. done;
  upstream_first = omega arith;
  once = omega arith;
  at_return = λ h. absurd (ground arith);
}
Closing-Released (at_end e done closes) = record {
  only_after = λ h. done;
  upstream_first = omega arith;
  once = omega arith;
  at_return = λ h. closes.0;
}

-- In any interleaving, no connection is closed while a direction is still copying: a close means
-- that both goroutines are done, each at the end of what its source gives or at an error. The
-- upstream connection is closed first, neither is closed twice, and when splice has returned each
-- has been closed once.
pub Reach-Released : {kinds : Kinds} {n r : ℕ} {s : Splice} → Reach kinds n r s → Released s
Reach-Released past = Closing-Released (Reach-Closing past)
