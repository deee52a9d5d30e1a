-- ===== src/Capture/Retention/Owned.antt =====
-- Which names the regular expression of internal/capture/retention.go matches.
use Prim.Native.Nat.{ℕ}
use go_e_bpf_proxy.Base.{
  ◌≤◌, ◌≡◌, ◌↔◌, refl, sym, ap, ◌∙◌, subst, ◌⊎◌, inl, inr, Bool, true, false, ◌||◌, [], ◌∷◌, ◌++◌,
  arith, ◌==◌, &&_iff, ==_iff, All, Bytes, bytes_eq, bytes_eq_iff, bytes_eq_refl,
}
use go_e_bpf_proxy.Capture.Retention.{is_digit, digits_then, literal_then, owned}

abbrev pub IsDigit : ℕ → Type 0
IsDigit c = (b'0' ≤ c) × (c ≤ b'9')

-- A decimal number: one digit or more.
abbrev pub IsDigits : Bytes → Type 0
IsDigits [] = ⊥
IsDigits (c ∷ cs) = IsDigit c × All IsDigit cs

-- The stem, a decimal number or two, each behind a dash, and the extension.
pub data IsOwnedName (stem ext name : Bytes) : Type 0 where
  plain :
      (epoch : Bytes)
      → IsDigits epoch
      → name ≡ stem ++ b'-' ∷ (epoch ++ ext)
      → IsOwnedName stem ext name
  numbered :
      (epoch n : Bytes)
      → IsDigits epoch
      → IsDigits n
      → name ≡ stem ++ b'-' ∷ (epoch ++ b'-' ∷ (n ++ ext))
      → IsOwnedName stem ext name

or_cases : (a b : Bool) → (a || b) ≡ true → (a ≡ true) ⊎ (b ≡ true)
or_cases true b h = inl refl
or_cases false b h = inr h

or_right : (a b : Bool) → b ≡ true → (a || b) ≡ true
or_right true b h = refl
or_right false b h = h

module _ (rest : Bytes → Bool) where
  digits_then_sound :
      (cs : Bytes)
      → digits_then rest cs ≡ true
      → (ds end : Bytes) × IsDigits ds × (cs ≡ ds ++ end) × (rest end ≡ true)
  unfolding digits_then
  digits_then_sound [] h = absurd (cc)
  digits_then_sound (c ∷ cs) h =
      let (digit, more) = (&&_iff (is_digit c) (rest cs || digits_then rest cs)).0 h in
      let d : IsDigit c = ground arith in
      elim (or_cases (rest cs) (digits_then rest cs) more) [
        | inl now ↦ (c ∷ [], cs, (d, tt), refl, now)
        | inr later ↦
            let (ds, end, ok, eq, last) = digits_then_sound cs later in
            (c ∷ ds, end, (d, all ds ok), ap (c ∷◌) eq, last)
      ]
    where
      all : (ds : Bytes) → IsDigits ds → All IsDigit ds
      all [] k = tt
      all (x ∷ xs) k = k

  digits_then_complete :
      (c : ℕ) (cs end : Bytes)
      → IsDigits (c ∷ cs)
      → rest end ≡ true
      → digits_then rest (c ∷ cs ++ end) ≡ true
  unfolding digits_then
  digits_then_complete c [] end k h = rw h (ground arith)
  digits_then_complete c (d ∷ cs) end k h =
      let later = digits_then_complete d cs end k.1 h in
      let more = or_right (rest (d ∷ cs ++ end)) (digits_then rest (d ∷ cs ++ end)) later in
      let digit : is_digit c ≡ true = ground arith in
      (&&_iff (is_digit c) (rest (d ∷ cs ++ end) || digits_then rest (d ∷ cs ++ end))).1
        (digit, more)

  literal_then_sound :
      (ls cs : Bytes)
      → literal_then ls rest cs ≡ true
      → (end : Bytes) × (cs ≡ ls ++ end) × (rest end ≡ true)
  unfolding literal_then
  literal_then_sound [] cs h = (cs, refl, h)
  literal_then_sound (l ∷ ls) [] h = absurd (cc)
  literal_then_sound (l ∷ ls) (c ∷ cs) h =
      let (same, more) = (&&_iff (l == c) (literal_then ls rest cs)).0 h in
      let (end, eq, last) = literal_then_sound ls cs more in
      (end, (λ i. sym ((==_iff l c).0 same) i ∷ eq i), last)

  literal_then_complete :
      (ls end : Bytes) → rest end ≡ true → literal_then ls rest (ls ++ end) ≡ true
  unfolding literal_then
  literal_then_complete [] end h = h
  literal_then_complete (l ∷ ls) end h =
      (&&_iff (l == l) (literal_then ls rest (ls ++ end))).1
        ((==_iff l l).1 refl, literal_then_complete ls end h)

  digits_then_of :
      (ds end : Bytes) → IsDigits ds → rest end ≡ true → digits_then rest (ds ++ end) ≡ true
  digits_then_of [] end k h = absurd k
  digits_then_of (c ∷ cs) end k h = digits_then_complete c cs end k h

-- A dash and a number, then what `rest` matches.
module _ (rest : Bytes → Bool) where
  dashed_sound :
      (cs : Bytes)
      → literal_then (b'-' ∷ []) (digits_then rest) cs ≡ true
      → (ds end : Bytes) × IsDigits ds × (cs ≡ b'-' ∷ (ds ++ end)) × (rest end ≡ true)
  dashed_sound cs h =
      let (end, eq, more) = literal_then_sound (digits_then rest) (b'-' ∷ []) cs h in
      let (ds, last, ok, eq', done) = digits_then_sound rest end more in
      (ds, last, ok, eq ∙ ap (b'-' ∷◌) eq', done)

  dashed_complete :
      (ds end : Bytes)
      → IsDigits ds
      → rest end ≡ true
      → literal_then (b'-' ∷ []) (digits_then rest) (b'-' ∷ (ds ++ end)) ≡ true
  dashed_complete ds end k h =
      literal_then_complete (digits_then rest) (b'-' ∷ []) (ds ++ end)
        (digits_then_of rest ds end k h)

-- The expression matches exactly the names of the stem, "-", decimal digits, perhaps "-" and more
-- digits, and the extension, whatever number the digits are and with leading zeros too.
pub owned_iff : (stem ext name : Bytes) → (owned stem ext name ≡ true) ↔ IsOwnedName stem ext name
unfolding owned
owned_iff stem ext name = (sound, complete)
  where
    is_ext : Bytes → Bool
    is_ext end = bytes_eq end ext

    tail : Bytes → Bool
    tail rest = is_ext rest || literal_then (b'-' ∷ []) (digits_then is_ext) rest

    suffix : Bytes → Bool
    suffix = literal_then (b'-' ∷ []) (digits_then tail)

    ending :
        (epoch end : Bytes)
        → IsDigits epoch
        → name ≡ stem ++ b'-' ∷ (epoch ++ end)
        → tail end ≡ true
        → IsOwnedName stem ext name
    ending epoch end ok eq h =
        elim (or_cases (is_ext end) (literal_then (b'-' ∷ []) (digits_then is_ext) end) h) [
          | inl e ↦
              plain epoch ok
                (eq ∙ ap (λ t. stem ++ b'-' ∷ (epoch ++ t)) ((bytes_eq_iff end ext).0 e))
          | inr more ↦
              let (n, last, ok', eq', e) = dashed_sound is_ext end more in
              numbered epoch n ok ok' (
                eq
                ∙ ap (λ t. stem ++ b'-' ∷ (epoch ++ t))
                    (eq' ∙ ap (λ t. b'-' ∷ (n ++ t)) ((bytes_eq_iff last ext).0 e)))
        ]

    sound : owned stem ext name ≡ true → IsOwnedName stem ext name
    sound h =
        let (rest, eq, more) = literal_then_sound suffix stem name h in
        let (epoch, end, ok, eq', last) = dashed_sound tail rest more in
        ending epoch end ok (eq ∙ ap (stem ++◌) eq') last

    from_parts :
        (epoch end : Bytes)
        → IsDigits epoch
        → tail end ≡ true
        → name ≡ stem ++ b'-' ∷ (epoch ++ end)
        → owned stem ext name ≡ true
    from_parts epoch end ok h eq =
        subst (λ n. owned stem ext n ≡ true) (sym eq)
          (literal_then_complete suffix stem (b'-' ∷ (epoch ++ end))
            (dashed_complete tail epoch end ok h))

    complete : IsOwnedName stem ext name → owned stem ext name ≡ true
    complete (plain epoch ok eq) =
        from_parts epoch ext ok
          (ap (λ b. b || literal_then (b'-' ∷ []) (digits_then is_ext) ext) (bytes_eq_refl ext)) eq
    complete (numbered epoch n ok ok' eq) =
        from_parts epoch (b'-' ∷ (n ++ ext)) ok
          (or_right (is_ext (b'-' ∷ (n ++ ext)))
            (literal_then (b'-' ∷ []) (digits_then is_ext) (b'-' ∷ (n ++ ext)))
            (dashed_complete is_ext n ext ok' (bytes_eq_refl ext)))
          eq
