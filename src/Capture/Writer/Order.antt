-- ===== src/Capture/Writer/Order.antt =====
-- The order in which secrets and packets are written.
use Prim.Native.Nat.{ℕ}
use go_e_bpf_proxy.Base.{
  subst, ◌≡◌, refl, sym, ap, ◌∙◌, some, List, [], ◌∷◌, ◌++◌, map, take, arith, append_assoc,
  append-nil, All, All-append, Bytes,
}
use native.Mathlib.Nat.{le_refl}
use go_e_bpf_proxy.Capture.Packet.{Stop, Call, dsb, flush, close_fd, Pcapgo}
use go_e_bpf_proxy.Capture.Writer.{Writer, secrets_payload}
use go_e_bpf_proxy.Capture.Writer.Step.{
  Event, event_bytes, event_room, run, run_cons, packet_call, secret_calls,
}
use go_e_bpf_proxy.Capture.Writer.Change.{
  Change, refused, queued, noted, resized, written, flushed, shut, settled, Changes, here, next,
  step-Changes,
}

abbrev pub IsFlush : Call → Type 0
IsFlush c = c ≡ flush

-- From `w` to `w'` the secrets `ks`, pending at `w`, are either pending still, with nothing written
-- but flushes, or the first block written is the one that holds them, and any that came after.
pub data Ahead (ks : List Bytes) (w w' : Writer) : Type 0 where
  waiting :
      (fs : List Call) (more : List Bytes)
      → All IsFlush fs
      → w'.calls ≡ w.calls ++ fs
      → w'.pending ≡ ks ++ more
      → Ahead ks w w'
  out :
      (fs : List Call) (more : List Bytes) (rest : List Call)
      → All IsFlush fs
      → w'.calls ≡ w.calls ++ (fs ++ dsb (secrets_payload (ks ++ more)) ∷ rest)
      → Ahead ks w w'

Change-calls :
    {m r : ℕ} {u v : Writer} → Change m r u v → (cs : List Call) × (v.calls ≡ u.calls ++ cs)
Change-calls (refused e) = ([], rw e (sym (append-nil _)))
Change-calls (queued h _ _ _ e) = ([], rw e (sym (append-nil _)))
Change-calls (noted l _ _ _ e) = ([], rw e (sym (append-nil _)))
Change-calls (resized n _ _ e) = ([], rw e (sym (append-nil _)))
Change-calls {u = u} (written n e) =
    (secret_calls u.pending ++ map packet_call (take n u.held), rw e)
Change-calls (flushed e) = (flush ∷ [], rw e)
Change-calls (shut _ _ e) = (flush ∷ close_fd ∷ [], rw e)
Change-calls (settled c d es e) = ([], rw e (sym (append-nil _)))

-- The calls and the pending secrets are as they were.
still :
    {w v : Writer} (u : Writer) (ks : List Bytes) (fs : List Call) (more : List Bytes)
    → All IsFlush fs
    → u.calls ≡ w.calls ++ fs
    → u.pending ≡ ks ++ more
    → v.calls ≡ u.calls
    → v.pending ≡ u.pending
    → Ahead ks w v
still u ks fs more a c q c' q' = waiting fs more a (c' ∙ c) (q' ∙ q)

Change-Ahead :
    {m r : ℕ} {w u v : Writer} {l : Bytes} {ls : List Bytes}
    → Change m r u v
    → Ahead (l ∷ ls) w u
    → Ahead (l ∷ ls) w v
Change-Ahead {w = w} {u} {v} {l} {ls} ch (out fs more rest a c) =
    let (cs, e) = Change-calls ch in out fs more (rest ++ cs) a (rw (e, c) (simp append_assoc))
Change-Ahead {u = u} {l = l} {ls} (refused e) (waiting fs more a c q) =
    still u (l ∷ ls) fs more a c q (rw e) (rw e)
Change-Ahead {u = u} {l = l} {ls} (queued h _ _ _ e) (waiting fs more a c q) =
    still u (l ∷ ls) fs more a c q (rw e) (rw e)
Change-Ahead {l = l} {ls} (noted k _ _ _ e) (waiting fs more a c q) =
    waiting fs (more ++ k ∷ []) a (rw e c)
      (rw e (ap (λ t. t ++ k ∷ []) q ∙ append_assoc (l ∷ ls) more (k ∷ [])))
Change-Ahead {u = u} {l = l} {ls} (resized n _ _ e) (waiting fs more a c q) =
    still u (l ∷ ls) fs more a c q (rw e) (rw e)
Change-Ahead {w = w} {u} (written n e) (waiting fs more a c q) =
    out fs more (map packet_call (take n u.held)) a (
      rw e (
        ap (λ t. t ++ (secret_calls u.pending ++ map packet_call (take n u.held))) c
        ∙ ap (λ t. (w.calls ++ fs) ++ (secret_calls t ++ map packet_call (take n u.held))) q
        ∙ append_assoc w.calls fs _))
Change-Ahead {w = w} (flushed e) (waiting fs more a c q) =
    waiting (fs ++ flush ∷ []) more (All-append IsFlush fs (flush ∷ []) a (refl, tt))
      (rw e (ap (λ t. t ++ flush ∷ []) c ∙ append_assoc w.calls fs (flush ∷ []))) (rw e q)
Change-Ahead (shut _ none_pending e) (waiting fs more a c q) = absurd (cc)
Change-Ahead {u = u} {l = l} {ls} (settled _ _ _ e) (waiting fs more a c q) =
    still u (l ∷ ls) fs more a c q (rw e) (rw e)

Changes-Ahead :
    {m r : ℕ} {w u v : Writer} {l : Bytes} {ls : List Bytes}
    → Changes m r u v
    → Ahead (l ∷ ls) w u
    → Ahead (l ∷ ls) w v
Changes-Ahead here a = a
Changes-Ahead (next rs c) a = Change-Ahead c (Changes-Ahead rs a)

module _ (p : Pcapgo) where
  run-Ahead_from :
      (w u : Writer) (l : Bytes) (ls : List Bytes) (es : List Event) {w' : Writer}
      {calls : List Stop}
      → run p u es ≡ some (w', calls)
      → Ahead (l ∷ ls) w u
      → Ahead (l ∷ ls) w w'
  unfolding run
  run-Ahead_from w u l ls [] h a = subst (Ahead (l ∷ ls) w) (ground arith) a
  run-Ahead_from w u l ls (e ∷ es) h a =
      let (u1, _, _, first, rest, _) = run_cons p u e es h in
      run-Ahead_from w u1 l ls es rest (
        Changes-Ahead
          (step-Changes p (event_bytes e) (event_room e) u e (le_refl _) (le_refl _) first) a)

-- From any state with pending secrets, whatever happens next, no packet reaches the file and the
-- file is not closed before one block with all those secrets is handed to pcapgo. So the secrets
-- stand ahead of every packet that was held when they came.
pub run-Ahead :
    (p : Pcapgo) (w : Writer) (l : Bytes) (ls : List Bytes) (es : List Event) {w' : Writer}
    {calls : List Stop}
    → w.pending ≡ l ∷ ls
    → run p w es ≡ some (w', calls)
    → Ahead (l ∷ ls) w w'
run-Ahead p w l ls es q h =
    run-Ahead_from p w w l ls es h
      (waiting [] [] tt (sym (append-nil w.calls)) (q ∙ sym (append-nil (l ∷ ls))))
