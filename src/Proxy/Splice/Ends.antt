-- ===== src/Proxy/Splice/Ends.antt =====
-- internal/proxy/relay.go: that splice returns, once both sides have been read to their end.
use Prim.Native.Nat.{ℕ}
use go_e_bpf_proxy.Base.{[], ◌+◌, ◌*◌, ◌≤◌, ◌≡◌, refl, ◌⊎◌, inl, inr, Bool, true, false, arith}
use go_e_bpf_proxy.Proxy.Splice.{
  Ending, more, last, Stage, reading, writing, copied, leaving, finished, Wire, Move, read,
  half_close, skip, done, Waiter, waiting, waited, closed_upstream, returned, Splice, reads, Kinds,
  Step, copy_to_client, copy_to_upstream, wait, close_upstream, close_client, Reach, start, later,
}
use go_e_bpf_proxy.Proxy.Splice.Closed.{
  Closing, at_wait, at_first, at_second, at_end, Reach-Closing,
}

-- The steps a direction, and splice itself, still has to take if it never reads again.
abbrev left : Stage → ℕ
left reading = 3
left (writing chunk answer) = 4
left (copied e) = 2
left (leaving e) = 1
left (finished e) = 0

abbrev waiter_left : Waiter → ℕ
waiter_left waiting = 3
waiter_left waited = 2
waiter_left closed_upstream = 1
waiter_left returned = 0

abbrev all_left : Splice → ℕ
all_left s = left s.at_client + left s.at_upstream + waiter_left s.waiter

Move-left :
    {tcp : Bool} {w v : Wire} {p q : Stage} → Move tcp w p v q → left q + 1 ≤ left p + 2 * reads p
Move-left (read c) = omega arith
Move-left mv = omega arith

Step-left :
    {kinds : Kinds} {s : Splice} {k : ℕ} {t : Splice}
    → Step kinds s k t
    → all_left t + 1 ≤ all_left s + 2 * k
Step-left (copy_to_client mv) = omega (arith, Move-left mv)
Step-left (copy_to_upstream mv) = omega (arith, Move-left mv)
Step-left (wait w hc hu) = ground arith
Step-left (close_upstream w) = ground arith
Step-left (close_client w) = ground arith

Reach-left : {kinds : Kinds} {n r : ℕ} {s : Splice} → Reach kinds n r s → n + all_left s ≤ 2 * r + 9
Reach-left start = omega arith
Reach-left (later past st) = omega (arith, Reach-left past, Step-left st)

Move-next :
    (tcp : Bool) (w : Wire) (p : Stage)
    → ((e : Ending) × (p ≡ finished e)) ⊎ ((v : Wire) × (q : Stage) × Move tcp w p v q)
Move-next tcp w reading = inr (_, _, read [])
Move-next tcp w (writing chunk more) = inr (_, _, Move.write)
Move-next tcp w (writing chunk (last e)) = inr (_, _, Move.write_last)
Move-next true w (copied e) = inr (_, _, half_close refl)
Move-next false w (copied e) = inr (_, _, skip refl)
Move-next tcp w (leaving e) = inr (_, _, done)
Move-next tcp w (finished e) = inl (e, refl)

abbrev pub CanStep : Kinds → Splice → Type 0
CanStep kinds s = (k : ℕ) × (t : Splice) × Step kinds s k t

done_next :
    (kinds : Kinds) {s : Splice} {e f : Ending}
    → s.at_client ≡ finished e
    → s.at_upstream ≡ finished f
    → Closing s
    → (s.waiter ≡ returned) ⊎ CanStep kinds s
done_next kinds hc hu (at_wait w closes) = inr (_, _, wait w hc hu)
done_next kinds hc hu (at_first w both closes) = inr (_, _, close_upstream w)
done_next kinds hc hu (at_second w both closes) = inr (_, _, close_client w)
done_next kinds hc hu (at_end w both closes) = inl w

next : (kinds : Kinds) (s : Splice) → Closing s → (s.waiter ≡ returned) ⊎ CanStep kinds s
next kinds s h = elim (Move-next kinds.client_tcp s.to_client s.at_client) [
  | inr (v, q, mv) ↦ inr (_, _, copy_to_client mv)
  | inl (e, hc) ↦ elim (Move-next kinds.upstream_tcp s.to_upstream s.at_upstream) [
    | inr (v, q, mv) ↦ inr (_, _, copy_to_upstream mv)
    | inl (f, hu) ↦ done_next kinds hc hu h
  ]
]

-- In any interleaving, splice takes at most nine steps beside two for each read, so it returns once
-- both sides have been read to their end; and until it has returned one of its threads can go on,
-- a read being answered.
pub Reach-ends :
    {kinds : Kinds} {n r : ℕ} {s : Splice}
    → Reach kinds n r s
    → (n ≤ 2 * r + 9) × ((s.waiter ≡ returned) ⊎ CanStep kinds s)
Reach-ends {kinds} {s} past = (omega (arith, Reach-left past), next kinds s (Reach-Closing past))
