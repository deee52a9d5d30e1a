-- ===== src/Proxy/Resolver/Outcomes.antt =====
-- What Resolve returns, by what the lookups answer.
use Prim.Native.Nat.{ℕ}
use go_e_bpf_proxy.Base.{
  subst, negsuc, zero, suc, ◌+◌, ◌≤◌, ◌<◌, ◌≡◌, refl, ap, ◌∙◌, ◌⊎◌, inl, inr, true, false, some, [],
  ◌∷◌, ◌++◌, arith, ℤ, pos, pos_part, leb_ℤ, add64, if◌then◌else◌, Bool-cases, Option-cases,
}
use native.Mathlib.Decide.{ℕ_discrete}
use go_e_bpf_proxy.Ebpf.Addr.{Addr, AddrPort, IsAddr4}
use go_e_bpf_proxy.Ebpf.Codec.{TupleKey, OrigDst, tuple_key, tuple_key_addr4, addr_port}
use go_e_bpf_proxy.Proxy.Resolver.{
  Lookup, found, missing, broken, Resolved, to_dst, lookup_failed, not_found, Resolver, LoopEnd,
  hit, fault, miss, resolve_loop, finish, resolve,
}

-- How the loop ends: by the first attempt that is no miss, or by a miss of the last one.
pub data Ends (look : ℕ → Lookup) (from last : ℕ) : LoopEnd → Type 0 where
  at_hit :
      (k : ℕ) (od : OrigDst)
      → from ≤ k
      → k ≤ last
      → ((j : ℕ) → from ≤ j → j < k → look j ≡ missing)
      → look k ≡ found od
      → Ends look from last (hit k od)
  at_fault :
      (k : ℕ)
      → from ≤ k
      → k ≤ last
      → ((j : ℕ) → from ≤ j → j < k → look j ≡ missing)
      → look k ≡ broken
      → Ends look from last (fault k)
  at_miss : ((j : ℕ) → from ≤ j → j ≤ last → look j ≡ missing) → Ends look from last (miss last)

miss_before :
    (look : ℕ → Lookup) (from : ℕ) (P : ℕ → Type 0)
    → look from ≡ missing
    → ((j : ℕ) → from + 1 ≤ j → P j → look j ≡ missing)
    → (j : ℕ) → from ≤ j
    → P j
    → look j ≡ missing
miss_before look from P h before j lo pj = elim (ℕ_discrete j from) [
  | yes e ↦ ap look e ∙ h
  | no ne ↦ before j (omega arith) pj
]

-- An attempt that misses stands before the rest.
Ends-earlier :
    {look : ℕ → Lookup} {from last : ℕ} {e : LoopEnd}
    → look from ≡ missing
    → Ends look (from + 1) last e
    → Ends look from last e
Ends-earlier {look} {from} h (at_hit k od a b before c) =
    at_hit k od (omega arith) b (miss_before look from (λ j. j < k) h before) c
Ends-earlier {look} {from} h (at_fault k a b before c) =
    at_fault k (omega arith) b (miss_before look from (λ j. j < k) h before) c
Ends-earlier {look} {from} {last} h (at_miss before) =
    at_miss (miss_before look from (λ j. j ≤ last) h before)

last_attempt : (r : ℤ) (n : ℕ) → leb_ℤ r (pos n) ≡ true → pos_part r ≤ n
last_attempt (pos m) n h = ground arith
last_attempt (negsuc m) n h = omega arith

more_attempts : (r : ℤ) (n : ℕ) → leb_ℤ r (pos n) ≡ false → n < pos_part r
more_attempts (pos m) n h = ground arith
more_attempts (negsuc m) n h = absurd (ground arith)

pub Lookup-cases : (l : Lookup) → ((od : OrigDst) × (l ≡ found od)) ⊎ (l ≡ missing) ⊎ (l ≡ broken)
Lookup-cases (found od) = inl (od, refl)
Lookup-cases missing = inr (inl refl)
Lookup-cases broken = inr (inr refl)

-- With fuel for every attempt left the loop ends, in one of those ways.
pub resolve_loop-Ends :
    (fuel : ℕ) (retries : ℤ) (look : ℕ → Lookup) (attempt : ℕ)
    → attempt ≤ pos_part retries
    → pos_part retries < fuel + attempt
    → (e : LoopEnd) × (resolve_loop fuel retries look attempt ≡ some e)
      × Ends look attempt (pos_part retries) e
unfolding resolve_loop
resolve_loop-Ends zero retries look attempt a b = absurd (omega arith)
resolve_loop-Ends (suc fuel) retries look attempt a b = elim (Lookup-cases (look attempt)) [
  | inl (od, e) ↦ (
    hit attempt od,
    ground arith,
    at_hit attempt od (omega arith) a (λ j lo hi. absurd (omega arith)) e,
  )
  | inr (inr e) ↦ (
    fault attempt,
    ground arith,
    at_fault attempt (omega arith) a (λ j lo hi. absurd (omega arith)) e,
  )
  | inr (inl e) ↦ elim (Bool-cases (leb_ℤ retries (pos attempt))) [
    | inl last ↦
        let same : attempt ≡ pos_part retries = omega (arith, last_attempt retries attempt last) in
        (
          miss attempt,
          ground arith,
          subst (λ n. Ends look attempt n (miss attempt)) same
              (at_miss (λ j lo hi. ap look (omega arith) ∙ e)),
        )
    | inr more ↦
        let room = more_attempts retries attempt more in
        let (end, eq, how) =
          resolve_loop-Ends fuel retries look (attempt + 1) (omega arith) (omega arith) in
        (end, ground (arith, eq), Ends-earlier e how)
  ]
]

pub resolve_step :
    (r : Resolver) (look : TupleKey → ℕ → Lookup) (src : Addr) (port : ℕ) (key : TupleKey)
    (end : LoopEnd)
    → tuple_key r.little src port ≡ some key
    → resolve_loop (pos_part r.retries + 1) r.retries (look key) 0 ≡ some end
    → resolve r look src port ≡ some (finish r (record { addr = src; port = port }) end)
unfolding resolve
resolve_step r look src port key end e eq = rw (e, resolve, eq)

-- What Resolve promises of an IPv4 source: it makes at most one attempt more than its retries, and
-- the first that is no miss decides. The destination it returns is that of the map's value; a
-- definitive miss is ErrNotFound, is counted, and calls onMiss once with the source; nothing else
-- changes the resolver.
pub data Promise (r : Resolver) (look : ℕ → Lookup) (src : AddrPort)
    : Resolver × Resolved → Type 0 where
  resolves :
      (k : ℕ) (od : OrigDst)
      → k ≤ pos_part r.retries
      → ((j : ℕ) → j < k → look j ≡ missing)
      → look k ≡ found od
      → Promise r look src (r, to_dst (addr_port r.little od))
  breaks :
      (k : ℕ)
      → k ≤ pos_part r.retries
      → ((j : ℕ) → j < k → look j ≡ missing)
      → look k ≡ broken
      → Promise r look src (r, lookup_failed)
  closes :
      ((j : ℕ) → j ≤ pos_part r.retries → look j ≡ missing)
      → Promise r look src (
        record r {
          misses = add64 r.misses 1;
          missed = if r.has_on_miss then r.missed ++ src ∷ [] else r.missed;
        },
        not_found,
      )

finish-Promise :
    (r : Resolver) (look : ℕ → Lookup) (src : AddrPort) {e : LoopEnd}
    → Ends look 0 (pos_part r.retries) e
    → Promise r look src (finish r src e)
unfolding finish
finish-Promise r look src (at_hit k od a b before h) =
    resolves k od b (λ j lt. before j (omega arith) lt) h
finish-Promise r look src (at_fault k a b before h) =
    breaks k b (λ j lt. before j (omega arith) lt) h
finish-Promise r look src (at_miss before) = closes (λ j le. before j (omega arith) le)

-- Resolve ends for every IPv4 source, whatever the map answers, and keeps its promise.
pub resolve-Promise :
    (r : Resolver) (look : TupleKey → ℕ → Lookup) (src : Addr) (port : ℕ)
    → IsAddr4 src
    → (key : TupleKey) × (out : Resolver × Resolved) × (tuple_key r.little src port ≡ some key)
      × (resolve r look src port ≡ some out)
      × Promise r (look key) (record { addr = src; port = port }) out
unfolding resolve
resolve-Promise r look src port v4 = elim (Option-cases (tuple_key r.little src port)) [
  | inl e ↦ absurd (tuple_key_addr4 r.little src port v4 e)
  | inr (key, e) ↦
      let source : AddrPort = record { addr = src; port = port } in
      let (end, eq, how) =
        resolve_loop-Ends (pos_part r.retries + 1) r.retries (look key) 0 (omega arith)
          (omega arith) in
      (
        key,
        finish r source end,
        e,
        resolve_step r look src port key end e eq,
        finish-Promise r (look key) source how,
      )
]
