-- ===== src/Ebpf/Redirect/History.antt =====
-- The maps of bpf/proxy.bpf.c against the history of the programs' runs.
use Prim.Native.Nat.{ℕ}
use native.Mathlib.Decide.{ℕ_discrete}
use go_e_bpf_proxy.Base.{
  ◌≡◌, ◌≢◌, refl, sym, ap, ◌∙◌, subst, inl, inr, Bool, true, false, Option, none, some, List, [],
  ◌∷◌, arith, ◌==◌, if◌then◌else◌, Bool-cases, Option-cases,
}
use go_e_bpf_proxy.Ebpf.Codec.{TupleKey, OrigDst}
use go_e_bpf_proxy.Ebpf.Redirect.{
  LruHash, SockAddr, SockOps, redirects, recorded, source_key, Maps, Run, connects, sock_op,
  cgroup_connect4, sockops_prog, program, after_runs,
}

-- What a lookup owes to updates and deletions: the last value under a key, or none where the map
-- has dropped it, and never another key's. An update may drop other keys.
pub record IsLruHash {K V : Type 0} (M : LruHash K V) : Type 0 where
  pub lookup-update_self : (m : M.Map) (k : K) (v : V) → M.lookup (M.update m k v) k ≡ some v
  pub lookup-update_other :
      (m : M.Map) (k : K) (v : V) (j : K) {w : V}
      → j ≢ k
      → M.lookup (M.update m k v) j ≡ some w
      → M.lookup m j ≡ some w
  pub lookup-delete_self : (m : M.Map) (k : K) → M.lookup (M.delete m k) k ≡ none
  pub lookup-delete_other : (m : M.Map) (k j : K) → j ≢ k → M.lookup (M.delete m k) j ≡ M.lookup m j

pub TupleKey-discrete : Discrete TupleKey
TupleKey-discrete = hlevel ℕ_discrete

module _ (C : LruHash ℕ OrigDst) (T : LruHash TupleKey OrigDst) (little : Bool) (m : Maps C T)
    (ctx : SockOps) where
  pub sockops_idle : ctx.connecting ≡ false → sockops_prog C T little m ctx ≡ m
  unfolding sockops_prog
  sockops_idle off = rw (off, sockops_prog) refl

  pub sockops_missed :
      ctx.connecting ≡ true
      → C.lookup m.by_cookie ctx.cookie ≡ none
      → sockops_prog C T little m ctx ≡ m
  unfolding sockops_prog
  sockops_missed on missing = ground arith

  pub sockops_joined :
      {od : OrigDst}
      → ctx.connecting ≡ true
      → C.lookup m.by_cookie ctx.cookie ≡ some od
      → sockops_prog C T little m ctx ≡ record m {
        by_cookie = C.delete m.by_cookie ctx.cookie;
        by_tuple = T.update m.by_tuple (source_key ctx) od;
      }
  unfolding sockops_prog
  sockops_joined on found = ground arith

module _ (little : Bool) where
  -- The destination of the newest connection that connect4 took from the socket with a cookie, if
  -- sockops_prog has not seen the socket connect since. The newest run stands first.
  pub pending : ℕ → List Run → Option OrigDst
  pending c [] = none
  pending c (connects ctx ∷ rs) =
      if redirects little ctx
      then if ctx.cookie == c then some (recorded little ctx) else pending c rs
      else pending c rs
  pending c (sock_op ctx ∷ rs) =
      if ctx.connecting then if ctx.cookie == c then none else pending c rs else pending c rs

  -- At some time a socket connected from a source for which a destination was pending.
  pub data Joined (key : TupleKey) (od : OrigDst) : List Run → Type 0 where
    now :
        (ctx : SockOps) {rs : List Run}
        → ctx.connecting ≡ true
        → source_key ctx ≡ key
        → pending ctx.cookie rs ≡ some od
        → Joined key od (sock_op ctx ∷ rs)
    earlier : (r : Run) {rs : List Run} → Joined key od rs → Joined key od (r ∷ rs)

  module _ (C : LruHash ℕ OrigDst) (T : LruHash TupleKey OrigDst) (lru_c : IsLruHash C)
      (lru_t : IsLruHash T) where
    -- Both maps hold only what the history has put there.
    pub record Told (m : Maps C T) (rs : List Run) : Type 0 where
      pub cookies :
          (c : ℕ) {od : OrigDst} → C.lookup m.by_cookie c ≡ some od → pending c rs ≡ some od
      pub tuples : (k : TupleKey) {od : OrigDst} → T.lookup m.by_tuple k ≡ some od → Joined k od rs

    -- The map after a connection that was taken, at the socket's cookie and at the others.
    updated-pending :
        (m : C.Map) (rs : List Run) (ctx : SockAddr) (c : ℕ) {od : OrigDst}
        → redirects little ctx ≡ true
        → (C.lookup m c ≡ some od → pending c rs ≡ some od)
        → C.lookup (C.update m ctx.cookie (recorded little ctx)) c ≡ some od
        → pending c (connects ctx ∷ rs) ≡ some od
    unfolding pending
    updated-pending m rs ctx c on old h = elim (ℕ_discrete c ctx.cookie) [
      | yes e ↦
          let here : (ctx.cookie == c) ≡ true = ground arith in
          let self = lru_c.lookup-update_self m ctx.cookie (recorded little ctx) in
          let same =
            sym self ∙ ap (C.lookup (C.update m ctx.cookie (recorded little ctx))) (sym e) ∙ h in
          rw (on, here) same
      | no ne ↦
          let there : (ctx.cookie == c) ≡ false = ground arith in
          rw (on, there) (old (lru_c.lookup-update_other m ctx.cookie (recorded little ctx) c ne h))
    ]

    deleted-pending :
        (m : C.Map) (rs : List Run) (ctx : SockOps) (c : ℕ) {od : OrigDst}
        → ctx.connecting ≡ true
        → (C.lookup m c ≡ some od → pending c rs ≡ some od)
        → C.lookup (C.delete m ctx.cookie) c ≡ some od
        → pending c (sock_op ctx ∷ rs) ≡ some od
    unfolding pending
    deleted-pending m rs ctx c on old h = elim (ℕ_discrete c ctx.cookie) [
      | yes e ↦
          let gone =
            sym (lru_c.lookup-delete_self m ctx.cookie)
            ∙ ap (C.lookup (C.delete m ctx.cookie)) (sym e)
            ∙ h in
          absurd (cc)
      | no ne ↦
          let there : (ctx.cookie == c) ≡ false = ground arith in
          rw (on, there) (old (sym (lru_c.lookup-delete_other m ctx.cookie c ne) ∙ h))
    ]

    -- A socket with no entry connects.
    missed-pending :
        (m : C.Map) (rs : List Run) (ctx : SockOps) (c : ℕ) {od : OrigDst}
        → ctx.connecting ≡ true
        → C.lookup m ctx.cookie ≡ none
        → (C.lookup m c ≡ some od → pending c rs ≡ some od)
        → C.lookup m c ≡ some od
        → pending c (sock_op ctx ∷ rs) ≡ some od
    unfolding pending
    missed-pending m rs ctx c on missing old h = elim (ℕ_discrete c ctx.cookie) [
      | yes e ↦ let gone = sym missing ∙ ap (C.lookup m) (sym e) ∙ h in absurd (cc)
      | no ne ↦ let there : (ctx.cookie == c) ≡ false = ground arith in rw (on, there) (old h)
    ]

    updated-Joined :
        (m : T.Map) (rs : List Run) (ctx : SockOps) (od' : OrigDst) (k : TupleKey) {od : OrigDst}
        → ctx.connecting ≡ true
        → pending ctx.cookie rs ≡ some od'
        → (T.lookup m k ≡ some od → Joined k od rs)
        → T.lookup (T.update m (source_key ctx) od') k ≡ some od
        → Joined k od (sock_op ctx ∷ rs)
    updated-Joined m rs ctx od' k {od} on waits old h =
        elim (TupleKey-discrete k (source_key ctx)) [
          | yes e ↦
              let self = lru_t.lookup-update_self m (source_key ctx) od' in
              let same : some od' ≡ some od =
                sym self ∙ ap (T.lookup (T.update m (source_key ctx) od')) (sym e) ∙ h in
              now ctx on (sym e) (waits ∙ same)
          | no ne ↦
              earlier (sock_op ctx) (old (lru_t.lookup-update_other m (source_key ctx) od' k ne h))
        ]

    connects-Told :
        (m : Maps C T) (rs : List Run) (ctx : SockAddr)
        → Told m rs
        → Told (cgroup_connect4 C T little m ctx).0 (connects ctx ∷ rs)
    unfolding cgroup_connect4 pending
    connects-Told m rs ctx t = elim (Bool-cases (redirects little ctx)) [
      | inl on ↦ rw on (record {
        cookies = λ c h. updated-pending m.by_cookie rs ctx c on (t.cookies c) h;
        tuples = λ k h. earlier (connects ctx) (t.tuples k h);
      })
      | inr off ↦ rw off (record {
        cookies = λ c h. rw off (t.cookies c h);
        tuples = λ k h. earlier (connects ctx) (t.tuples k h);
      })
    ]

    sock_op-Told :
        (m : Maps C T) (rs : List Run) (ctx : SockOps)
        → Told m rs
        → Told (sockops_prog C T little m ctx) (sock_op ctx ∷ rs)
    unfolding pending
    sock_op-Told m rs ctx t = elim (Bool-cases ctx.connecting) [
      | inr off ↦ subst Kept (sym (sockops_idle C T little m ctx off)) (record {
        cookies = λ c h. rw off (t.cookies c h);
        tuples = λ k h. earlier (sock_op ctx) (t.tuples k h);
      })
      | inl on ↦ elim (Option-cases (C.lookup m.by_cookie ctx.cookie)) [
        | inl missing ↦ subst Kept (sym (sockops_missed C T little m ctx on missing)) (record {
          cookies = λ c h. missed-pending m.by_cookie rs ctx c on missing (t.cookies c) h;
          tuples = λ k h. earlier (sock_op ctx) (t.tuples k h);
        })
        | inr (od, found) ↦ subst Kept (sym (sockops_joined C T little m ctx on found)) (record {
          cookies = λ c h. deleted-pending m.by_cookie rs ctx c on (t.cookies c) h;
          tuples = λ k h.
              updated-Joined m.by_tuple rs ctx od k on (t.cookies ctx.cookie found) (t.tuples k) h;
        })
      ]
    ]
      where
        Kept : Maps C T → Type 0
        Kept m' = Told m' (sock_op ctx ∷ rs)

    -- From maps that hold nothing, whatever the programs run on and whatever the kernel drops, the
    -- map that the relay reads holds under a source only a destination that connect4 recorded for a
    -- socket which then connected from that source.
    pub after_runs-Told :
        (m : Maps C T) (rs : List Run)
        → ((c : ℕ) → C.lookup m.by_cookie c ≡ none)
        → ((k : TupleKey) → T.lookup m.by_tuple k ≡ none)
        → Told (after_runs C T little m rs) rs
    unfolding after_runs program
    after_runs-Told m [] ec et = record {
      cookies = λ c h. let gone = sym (ec c) ∙ h in absurd (cc);
      tuples = λ k h. let gone = sym (et k) ∙ h in absurd (cc);
    }
    after_runs-Told m (connects ctx ∷ rs) ec et =
        connects-Told (after_runs C T little m rs) rs ctx (after_runs-Told m rs ec et)
    after_runs-Told m (sock_op ctx ∷ rs) ec et =
        sock_op-Told (after_runs C T little m rs) rs ctx (after_runs-Told m rs ec et)
