-- ===== src/Ebpf/Redirect/Join.antt =====
-- A connection on its way: connect4 takes it, sockops_prog files it, and the resolver looks it up.
use Prim.Native.Nat.{ℕ}
use go_e_bpf_proxy.Base.{
  ◌≡◌, ◌≢◌, refl, ap, ◌∙◌, inl, inr, Bool, true, some, List, [], ◌∷◌, All, Bool-cases, Option-cases,
}
use go_e_bpf_proxy.Ebpf.Codec.{TupleKey, OrigDst}
use go_e_bpf_proxy.Ebpf.Redirect.{
  LruHash, SockAddr, SockOps, redirects, recorded, source_key, Maps, Run, connects, sock_op,
  cgroup_connect4, sockops_prog, program, after_runs,
}
use go_e_bpf_proxy.Ebpf.Redirect.Connect.{connect4_taken, connect4_left}
use go_e_bpf_proxy.Ebpf.Redirect.History.{IsLruHash, sockops_idle, sockops_missed, sockops_joined}

-- A map that drops nothing.
abbrev pub KeepsOthers : {K V : Type 0} → LruHash K V → Type 0
KeepsOthers {K} {V} M =
    (m : M.Map) (k : K) (v : V) (j : K) → j ≢ k → M.lookup (M.update m k v) j ≡ M.lookup m j

-- A run for another socket.
abbrev pub IsOfOther : ℕ → Run → Type 0
IsOfOther c (connects ctx) = c ≢ ctx.cookie
IsOfOther c (sock_op ctx) = c ≢ ctx.cookie

-- A run that files nothing under a source.
abbrev pub IsFromOther : TupleKey → Run → Type 0
IsFromOther k (connects ctx) = Unit {0}
IsFromOther k (sock_op ctx) = k ≢ source_key ctx

module _ (C : LruHash ℕ OrigDst) (T : LruHash TupleKey OrigDst) (little : Bool)
    (lru_c : IsLruHash C) (lru_t : IsLruHash T) (keeps_c : KeepsOthers C)
    (keeps_t : KeepsOthers T) where
  connects_keep :
      (m : Maps C T) (ctx : SockAddr) (c : ℕ)
      → c ≢ ctx.cookie
      → C.lookup (cgroup_connect4 C T little m ctx).0.by_cookie c ≡ C.lookup m.by_cookie c
  connects_keep m ctx c ne = elim (Bool-cases (redirects little ctx)) [
    | inl on ↦
        rw (connect4_taken C T little m ctx on)
          (keeps_c m.by_cookie ctx.cookie (recorded little ctx) c ne)
    | inr off ↦ rw (connect4_left C T little m ctx off) refl
  ]

  connects_tuples :
      (m : Maps C T) (ctx : SockAddr) → (cgroup_connect4 C T little m ctx).0.by_tuple ≡ m.by_tuple
  connects_tuples m ctx = elim (Bool-cases (redirects little ctx)) [
    | inl on ↦ rw (connect4_taken C T little m ctx on) refl
    | inr off ↦ rw (connect4_left C T little m ctx off) refl
  ]

  sock_op_keeps :
      (m : Maps C T) (ctx : SockOps) (c : ℕ)
      → c ≢ ctx.cookie
      → C.lookup (sockops_prog C T little m ctx).by_cookie c ≡ C.lookup m.by_cookie c
  sock_op_keeps m ctx c ne = elim (Bool-cases ctx.connecting) [
    | inr off ↦ ap (λ m'. C.lookup m'.by_cookie c) (sockops_idle C T little m ctx off)
    | inl on ↦ elim (Option-cases (C.lookup m.by_cookie ctx.cookie)) [
      | inl missing ↦
          ap (λ m'. C.lookup m'.by_cookie c) (sockops_missed C T little m ctx on missing)
      | inr (od, found) ↦
          ap (λ m'. C.lookup m'.by_cookie c) (sockops_joined C T little m ctx on found)
          ∙ lru_c.lookup-delete_other m.by_cookie ctx.cookie c ne
    ]
  ]

  sock_op_tuples :
      (m : Maps C T) (ctx : SockOps) (k : TupleKey)
      → k ≢ source_key ctx
      → T.lookup (sockops_prog C T little m ctx).by_tuple k ≡ T.lookup m.by_tuple k
  sock_op_tuples m ctx k ne = elim (Bool-cases ctx.connecting) [
    | inr off ↦ ap (λ m'. T.lookup m'.by_tuple k) (sockops_idle C T little m ctx off)
    | inl on ↦ elim (Option-cases (C.lookup m.by_cookie ctx.cookie)) [
      | inl missing ↦ ap (λ m'. T.lookup m'.by_tuple k) (sockops_missed C T little m ctx on missing)
      | inr (od, found) ↦
          ap (λ m'. T.lookup m'.by_tuple k) (sockops_joined C T little m ctx on found)
          ∙ keeps_t m.by_tuple (source_key ctx) od k ne
    ]
  ]

  -- Runs for other sockets leave a socket's entry.
  cookie_kept :
      (m : Maps C T) (rs : List Run) (c : ℕ)
      → All (IsOfOther c) rs
      → C.lookup (after_runs C T little m rs).by_cookie c ≡ C.lookup m.by_cookie c
  unfolding after_runs program
  cookie_kept m [] c h = refl
  cookie_kept m (connects ctx ∷ rs) c h =
      connects_keep (after_runs C T little m rs) ctx c h.0 ∙ cookie_kept m rs c h.1
  cookie_kept m (sock_op ctx ∷ rs) c h =
      sock_op_keeps (after_runs C T little m rs) ctx c h.0 ∙ cookie_kept m rs c h.1

  -- Runs that file nothing under a source leave what is filed there.
  tuple_kept :
      (m : Maps C T) (rs : List Run) (k : TupleKey)
      → All (IsFromOther k) rs
      → T.lookup (after_runs C T little m rs).by_tuple k ≡ T.lookup m.by_tuple k
  unfolding after_runs program
  tuple_kept m [] k h = refl
  tuple_kept m (connects ctx ∷ rs) k h =
      ap (λ t. T.lookup t k) (connects_tuples (after_runs C T little m rs) ctx)
      ∙ tuple_kept m rs k h.1
  tuple_kept m (sock_op ctx ∷ rs) k h =
      sock_op_tuples (after_runs C T little m rs) ctx k h.0 ∙ tuple_kept m rs k h.1

  -- connect4 takes a connection, its socket connects, and nothing else comes from its source: then
  -- what was recorded is filed under the source.
  pub joined_filed :
      (m : Maps C T) (at_dst : SockAddr) (between after : List Run) (ctx : SockOps)
      → redirects little at_dst ≡ true
      → ctx.cookie ≡ at_dst.cookie
      → ctx.connecting ≡ true
      → All (IsOfOther at_dst.cookie) between
      → All (IsFromOther (source_key ctx)) after
      → let m1 = (cgroup_connect4 C T little m at_dst).0 in
        let m2 = sockops_prog C T little (after_runs C T little m1 between) ctx in
        T.lookup (after_runs C T little m2 after).by_tuple (source_key ctx)
        ≡ some (recorded little at_dst)
  joined_filed m at_dst between after ctx on same connecting others elsewhere =
      let m1 = (cgroup_connect4 C T little m at_dst).0 in
      let mid = after_runs C T little m1 between in
      let entry : C.lookup m1.by_cookie at_dst.cookie ≡ some (recorded little at_dst) =
        ap (λ out. C.lookup out.0.by_cookie at_dst.cookie) (connect4_taken C T little m at_dst on)
        ∙ lru_c.lookup-update_self m.by_cookie at_dst.cookie (recorded little at_dst) in
      let found : C.lookup mid.by_cookie ctx.cookie ≡ some (recorded little at_dst) =
        ap (C.lookup mid.by_cookie) same ∙ cookie_kept m1 between at_dst.cookie others ∙ entry in
      tuple_kept (sockops_prog C T little mid ctx) after (source_key ctx) elsewhere
      ∙ ap (λ m'. T.lookup m'.by_tuple (source_key ctx))
          (sockops_joined C T little mid ctx connecting found)
      ∙ lru_t.lookup-update_self mid.by_tuple (source_key ctx) (recorded little at_dst)
