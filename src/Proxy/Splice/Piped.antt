-- ===== src/Proxy/Splice/Piped.antt =====
-- internal/proxy/relay.go: what a relayed connection's two directions carry, and when it is closed.
use Prim.Native.Nat.{ℕ}
use go_e_bpf_proxy.Base.{
  ◌≡◌, refl, sym, Bool, [], ◌++◌, append_assoc, append-nil, Bytes, arith, if◌then◌else◌,
}
use go_e_bpf_proxy.Proxy.Splice.{
  write_failed, Stage, reading, writing, copied, leaving, finished, Wire, Move, read, read_last,
  write, write_last, write_fail, half_close, skip, done, Splice, Kinds, Step, copy_to_client,
  copy_to_upstream, Reach, start, later,
}

-- What was read and is not written: on its way, or lost to a failed write.
unfoldable pub pending : Stage → Bytes
pending reading = []
pending (writing chunk answer) = chunk
pending (copied (write_failed lost)) = lost
pending (leaving (write_failed lost)) = lost
pending (finished (write_failed lost)) = lost
pending p = []

-- How often CloseWrite has been called on a TCP connection.
unfoldable pub half_closed : Bool → Stage → ℕ
half_closed tcp (leaving e) = if tcp then 1 else 0
half_closed tcp (finished e) = if tcp then 1 else 0
half_closed tcp p = 0

pub record Piped (tcp : Bool) (w : Wire) (p : Stage) : Type 0 where
  pub in_order : w.taken ≡ w.given ++ pending p
  pub half : w.half_closes ≡ half_closed tcp p

grown : (t g c : Bytes) → t ≡ g ++ [] → t ++ c ≡ g ++ c
grown t g c h = rw h (rw append-nil refl)

moved : (t g c : Bytes) → t ≡ g ++ c → t ≡ (g ++ c) ++ []
moved t g c h = rw h (sym (append-nil _))

split : (t g c sent lost : Bytes) → t ≡ g ++ c → c ≡ sent ++ lost → t ≡ (g ++ sent) ++ lost
split t g c sent lost h e = rw h (rw e (sym (append_assoc g sent lost)))

-- Each step of cp keeps the account of its bytes.
Move-Piped :
    {tcp : Bool} {w v : Wire} {p q : Stage} → Move tcp w p v q → Piped tcp w p → Piped tcp v q
unfolding pending half_closed
Move-Piped {w} (read c) h = record { in_order = grown w.taken w.given c h.in_order; half = h.half }
Move-Piped {w} (read_last c) h = record {
  in_order = grown w.taken w.given c h.in_order;
  half = h.half;
}
Move-Piped {w} (write {chunk}) h = record {
  in_order = moved w.taken w.given chunk h.in_order;
  half = h.half;
}
Move-Piped {w} (write_last {chunk}) h = record {
  in_order = moved w.taken w.given chunk h.in_order;
  half = h.half;
}
Move-Piped {w} (write_fail {chunk} sent lost some_left e) h = record {
  in_order = split w.taken w.given chunk sent lost h.in_order e;
  half = h.half;
}
Move-Piped (half_close {e} is_tcp) h = ground (arith, h.half, h.in_order)
Move-Piped (skip {e} not_tcp) h = ground (arith, h.half, h.in_order)
Move-Piped (done {e}) h = ground (arith, h.half, h.in_order)

Step-Piped :
    {kinds : Kinds} {s : Splice} {k : ℕ} {t : Splice}
    → Step kinds s k t
    → Piped kinds.client_tcp s.to_client s.at_client
    → Piped kinds.upstream_tcp s.to_upstream s.at_upstream
    → Piped kinds.client_tcp t.to_client t.at_client
      × Piped kinds.upstream_tcp t.to_upstream t.at_upstream
Step-Piped (copy_to_client mv) h g = (Move-Piped mv h, g)
Step-Piped (copy_to_upstream mv) h g = (h, Move-Piped mv g)
Step-Piped st h g = (h, g)

-- In any interleaving of the two directions of a relayed connection with reads, short reads, ends
-- and failures of either side, at any moment: what a direction has read is what it has written to
-- the other side, in that order, and then what it holds or has lost to a failed write, which is
-- nothing unless it is between a read and its write, or a write failed. It has called CloseWrite
-- once if it is past it and writes to a TCP connection, and not otherwise.
pub Reach-Piped :
    {kinds : Kinds} {n r : ℕ} {s : Splice}
    → Reach kinds n r s
    → Piped kinds.client_tcp s.to_client s.at_client
      × Piped kinds.upstream_tcp s.to_upstream s.at_upstream
unfolding pending half_closed
Reach-Piped start =
    (record { in_order = refl; half = refl }, record { in_order = refl; half = refl })
Reach-Piped (later past st) = let (h, g) = Reach-Piped past in Step-Piped st h g
