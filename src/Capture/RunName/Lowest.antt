-- ===== src/Capture/RunName/Lowest.antt =====
-- Which name a run's capture gets.
use Prim.Native.Nat.{ℕ}
use native.Mathlib.Decide.{ℕ_discrete}
use go_e_bpf_proxy.Base.{
  zero, suc, ◌+◌, ◌/◌, ◌%◌, ◌≤◌, ◌<◌, ◌≡◌, refl, ap, ◌∙◌, ◌⊎◌, inl, inr, true, [], ◌∷◌, ◌++◌, arith,
  append_assoc, All, Bytes, bytes_eq, codes, ltb, leb, if_elim, Bool-cases, pos,
}
use go_e_bpf_proxy.Capture.Retention.{join, owned}
use go_e_bpf_proxy.Capture.Retention.Owned.{
  IsDigit, IsDigits, IsOwnedName, plain, numbered, owned_iff,
}
use go_e_bpf_proxy.Capture.RunName.{
  max_run_suffix, Created, opened, name_taken, create_failed, RunCapture, created, failed,
  all_taken, decimal_loop, decimal, run_base, run_path, create_loop, create_run_capture,
}

decimal_loop-IsDigits :
    (fuel n : ℕ) (acc : Bytes) → n < fuel → All IsDigit acc → IsDigits (decimal_loop fuel n acc)
unfolding decimal_loop
decimal_loop-IsDigits zero n acc h a = absurd (omega arith)
decimal_loop-IsDigits (suc fuel) n acc h a = elim (Bool-cases (ltb n 10)) [
  | inl small ↦ rw (small, decimal_loop) (digit n (ground arith), a)
  | inr large ↦
      rw (large, decimal_loop)
        (decimal_loop-IsDigits fuel (n / 10) ((b'0' + n % 10) ∷ acc) (less n (ground arith) h)
          (digit (n % 10) (omega arith), a))
]
  where
    digit : (k : ℕ) → k < 10 → IsDigit (b'0' + k)
    digit k small = omega arith

    less : (k : ℕ) → 10 ≤ k → k < suc fuel → k / 10 < fuel
    less k large small = omega arith

decimal-IsDigits : (n : ℕ) → IsDigits (decimal (pos n))
unfolding decimal
decimal-IsDigits n = decimal_loop-IsDigits (n + 1) n [] (omega arith) tt

join-append : (dir a b : Bytes) → join dir a ++ b ≡ join dir (a ++ b)
unfolding join
join-append dir a b =
    if_elim (λ p. p ++ b ≡ join dir (a ++ b)) (bytes_eq dir (codes ".")) (λ here. rw here refl)
      (λ far.
        if_elim (λ p. p ++ b ≡ join dir (a ++ b)) (bytes_eq dir (codes "/"))
          (λ root. rw (far, root) refl) (λ deep. rw (far, deep) (append_assoc dir (b'/' ∷ a) b)))

-- The name under which the path is an entry of the directory.
pub run_path-IsOwnedName :
    (dir stem ext : Bytes) (epoch n : ℕ)
    → (name : Bytes) × (run_path (run_base dir stem (pos epoch)) ext n ≡ join dir name)
      × IsOwnedName stem ext name
unfolding run_path run_base
run_path-IsOwnedName dir stem ext epoch n = elim (Bool-cases (leb 1 n)) [
  | inl some_n ↦ (
    stem ++ b'-' ∷ (seconds ++ b'-' ∷ (decimal (pos n) ++ ext)),
    rw some_n (
        join-append dir (stem ++ b'-' ∷ seconds) (b'-' ∷ (decimal (pos n) ++ ext))
        ∙ ap (join dir) (append_assoc stem (b'-' ∷ seconds) (b'-' ∷ (decimal (pos n) ++ ext)))),
    numbered seconds (decimal (pos n)) (decimal-IsDigits epoch) (decimal-IsDigits n) refl,
  )
  | inr zero_n ↦ (
    stem ++ b'-' ∷ (seconds ++ ext),
    rw zero_n (
        join-append dir (stem ++ b'-' ∷ seconds) ext
        ∙ ap (join dir) (append_assoc stem (b'-' ∷ seconds) ext)),
    plain seconds (decimal-IsDigits epoch) refl,
  )
]
  where
    seconds : Bytes
    seconds = decimal (pos epoch)

abbrev pub Taken : (Bytes → Created) → Bytes → Bytes → ℕ → ℕ → Type 0
Taken creates base ext from n =
    (j : ℕ) → from ≤ j → j < n → creates (run_path base ext j) ≡ name_taken

-- How CreateRunCapture ends, from the suffix `from` on: at the first name that is not taken, with
-- the file created or with an error, or with all of them taken.
pub data Lowest (base ext : Bytes) (creates : Bytes → Created) (from : ℕ)
    : RunCapture → Type 0 where
  at_free :
      (n : ℕ)
      → from ≤ n
      → n ≤ max_run_suffix
      → Taken creates base ext from n
      → creates (run_path base ext n) ≡ opened
      → Lowest base ext creates from (created (run_path base ext n))
  at_error :
      (n : ℕ)
      → from ≤ n
      → n ≤ max_run_suffix
      → Taken creates base ext from n
      → creates (run_path base ext n) ≡ create_failed
      → Lowest base ext creates from (failed (run_path base ext n))
  nowhere :
      Taken creates base ext from (max_run_suffix + 1) → Lowest base ext creates from all_taken

pub Created-cases : (c : Created) → (c ≡ opened) ⊎ (c ≡ name_taken) ⊎ (c ≡ create_failed)
Created-cases opened = inl refl
Created-cases name_taken = inr (inl refl)
Created-cases create_failed = inr (inr refl)

module _ (base ext : Bytes) (creates : Bytes → Created) where
  Taken-from :
      (from n : ℕ)
      → creates (run_path base ext from) ≡ name_taken
      → Taken creates base ext (from + 1) n
      → Taken creates base ext from n
  Taken-from from n here later j lo hi = elim (ℕ_discrete j from) [
    | yes e ↦ ap (λ k. creates (run_path base ext k)) e ∙ here
    | no ne ↦ later j (omega arith) hi
  ]

  Lowest-earlier :
      (from : ℕ) {c : RunCapture}
      → creates (run_path base ext from) ≡ name_taken
      → Lowest base ext creates (from + 1) c
      → Lowest base ext creates from c
  Lowest-earlier from here (at_free n lo hi t o) =
      at_free n (omega arith) hi (Taken-from from n here t) o
  Lowest-earlier from here (at_error n lo hi t o) =
      at_error n (omega arith) hi (Taken-from from n here t) o
  Lowest-earlier from here (nowhere t) = nowhere (Taken-from from (max_run_suffix + 1) here t)

  pub create_loop-Lowest :
      (fuel from : ℕ)
      → from ≤ max_run_suffix
      → max_run_suffix < fuel + from
      → Lowest base ext creates from (create_loop fuel base ext creates from)
  unfolding create_loop
  create_loop-Lowest zero from lo hi = absurd (omega arith)
  create_loop-Lowest (suc fuel) from lo hi =
      elim (Created-cases (creates (run_path base ext from))) [
        | inl e ↦
            rw (e, create_loop) (at_free from (omega arith) lo (λ j a b. absurd (omega arith)) e)
        | inr (inr e) ↦
            rw (e, create_loop) (at_error from (omega arith) lo (λ j a b. absurd (omega arith)) e)
        | inr (inl e) ↦
            rw (e, create_loop)
              (if_elim (Lowest base ext creates from) (leb (from + 1) max_run_suffix)
                (λ more.
                  Lowest-earlier from e
                    (create_loop-Lowest fuel (from + 1) (ground arith) (omega arith)))
                (λ last. nowhere (λ j a b.
                  ap (λ k. creates (run_path base ext k)) (same j a b (ground arith)) ∙ e)))
      ]
    where
      same : (j : ℕ) → from ≤ j → j < max_run_suffix + 1 → max_run_suffix < from + 1 → j ≡ from
      same j a b c = omega arith

-- CreateRunCapture ends at the lowest suffix whose name is not taken, the bare name standing for 0,
-- with the file that NewWriter created there or with its error, and fails otherwise only if the
-- names of all suffixes to 999 are taken. Whatever path it tries, at a time from 1970 on, is that
-- of an entry of the template's directory with a name that Retention takes for a capture.
pub create_run_capture-Lowest :
    (dir stem ext : Bytes) (epoch : ℕ) (creates : Bytes → Created)
    → Lowest
        (run_base dir stem (pos epoch))
        ext
        creates
        0
        (create_run_capture dir stem ext (pos epoch) creates)
      × ((n : ℕ)
          → (name : Bytes) × (run_path (run_base dir stem (pos epoch)) ext n ≡ join dir name)
            × (owned stem ext name ≡ true))
unfolding create_run_capture
create_run_capture-Lowest dir stem ext epoch creates = (
  create_loop-Lowest (run_base dir stem (pos epoch)) ext creates (max_run_suffix + 1) 0
      (omega arith) (omega arith),
  λ n.
      let (name, eq, shape) = run_path-IsOwnedName dir stem ext epoch n in
      (name, eq, (owned_iff stem ext name).1 shape),
)
