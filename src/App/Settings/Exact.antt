-- ===== src/App/Settings/Exact.antt =====
-- Which numbers of a config file strictNumbers lets through.
use Prim.Native.Nat.{ℕ}
use native.Mathlib.Nat.{
  one-le-pow, le_of_mul-le-mul_right, lt_of_mul-lt-mul_right, mul-le-mul_right,
  mul-lt-mul_of_pos_right, mul-mod_left,
}
use native.Mathlib.Omega.{div_any}
use go_e_bpf_proxy.Base.{
  ◌*◌, ◌/◌, ◌%◌, ◌^◌, ◌≤◌, ◌<◌, ◌≡◌, ◌↔◌, refl, sym, ap, ◌∙◌, subst, true, false, ◌&&◌, none, arith,
  ltb, leb, ◌==◌, ℤ, pos, negsuc, pos_part, neg_part, sub_ℕ,
}
use go_e_bpf_proxy.App.Settings.{
  Float64, nan, infinite, finite, Number, int, uint, float, number, Setting, duration_setting,
  int64_setting, level_setting, string_setting, bool_setting, is_int64, is_zero_float, is_zero,
  is_duration, is_int64_kind, range_error, strict_numbers,
}

-- A float that is the integer n.
abbrev pub IsWhole : Float64 → ℤ → Type 0
IsWhole nan n = ⊥
IsWhole (infinite negative) n = ⊥
IsWhole (finite true m k) n = (pos_part n ≡ 0) × (m ≡ neg_part n * 2 ^ k)
IsWhole (finite false m k) n = (neg_part n ≡ 0) × (m ≡ pos_part n * 2 ^ k)

-- A number that is the integer n.
abbrev pub Denotes : Number → ℤ → Type 0
Denotes (int m) n = m ≡ n
Denotes (uint m) n = pos m ≡ n
Denotes (float f) n = IsWhole f n

abbrev pub IsInt64 : ℤ → Type 0
IsInt64 n = (pos_part n < 2 ^ 63) × (neg_part n ≤ 2 ^ 63)

power_pos : (k : ℕ) → 0 < 2 ^ k
power_pos k = one-le-pow k 2 (omega arith)

-- The whole multiples of d up to a bound.
whole_le :
    (m d n : ℕ)
    → 0 < d
    → (((m % d == 0) && leb m (n * d)) ≡ true) ↔ ((q : ℕ) × (m ≡ q * d) × (q ≤ n))
whole_le m d n p = (
  (λ e.
      let z : m % d ≡ 0 = ground arith in
      let le : m ≤ n * d = ground arith in
      let same : m ≡ m / d * d = let f = div_any m d in grind arith in
      (m / d, same, le_of_mul-le-mul_right (subst (λ t. t ≤ n * d) same le) p)),
  (λ (q, same, le).
      let z : m % d ≡ 0 = ap (λ t. t % d) same ∙ mul-mod_left q d in
      let bound : m ≤ n * d = subst (λ t. t ≤ n * d) (sym same) (mul-le-mul_right d le) in
      ground arith),
)

whole_lt :
    (m d n : ℕ)
    → 0 < d
    → (((m % d == 0) && ltb m (n * d)) ≡ true) ↔ ((q : ℕ) × (m ≡ q * d) × (q < n))
whole_lt m d n p = (
  (λ e.
      let z : m % d ≡ 0 = ground arith in
      let lt : m < n * d = ground arith in
      let same : m ≡ m / d * d = let f = div_any m d in grind arith in
      (m / d, same, lt_of_mul-lt-mul_right d (subst (λ t. t < n * d) same lt))),
  (λ (q, same, lt).
      let z : m % d ≡ 0 = ap (λ t. t % d) same ∙ mul-mod_left q d in
      let bound : m < n * d = subst (λ t. t < n * d) (sym same) (mul-lt-mul_of_pos_right lt p) in
      ground arith),
)

negated : (q : ℕ) → (pos_part (sub_ℕ 0 q) ≡ 0) × (neg_part (sub_ℕ 0 q) ≡ q)
negated q = ground arith

is_int64_iff : (f : Float64) → (is_int64 f ≡ true) ↔ ((n : ℤ) × IsWhole f n × IsInt64 n)
unfolding is_int64
is_int64_iff nan = ((λ e. cc), (λ (n, whole, r). absurd whole))
is_int64_iff (infinite b) = ((λ e. cc), (λ (n, whole, r). absurd whole))
is_int64_iff (finite true m k) =
    let w = whole_le m (2 ^ k) (2 ^ 63) (power_pos k) in
    (
      (λ e.
          let (q, same, le) = w.0 e in
          let (none_above, below) = negated q in
          (
            sub_ℕ 0 q,
            (none_above, same ∙ ap (λ t. t * 2 ^ k) (sym below)),
            (omega arith, omega arith),
          )),
      (λ (n, whole, r). w.1 (neg_part n, whole.1, r.1)),
    )
is_int64_iff (finite false m k) =
    let w = whole_lt m (2 ^ k) (2 ^ 63) (power_pos k) in
    (
      (λ e. let (q, same, lt) = w.0 e in (pos q, (refl, same), (lt, omega arith))),
      (λ (n, whole, r). w.1 (pos_part n, whole.1, r.0)),
    )

-- The numbers that a source can hand on: an int64, a uint64 or any float64.
abbrev pub IsNumber : Number → Type 0
IsNumber (int n) = IsInt64 n
IsNumber (uint n) = n < 2 ^ 64
IsNumber (float f) = Unit {0}

-- What a setting takes of the numbers: an int64 each that is an integer in its range, a duration
-- only zero.
abbrev pub Takes : Setting → Number → Type 0
Takes duration_setting d = Denotes d (pos 0)
Takes int64_setting d = (n : ℤ) × Denotes d n × IsInt64 n
Takes _ d = Unit {0}

float_zero_iff : (f : Float64) → (is_zero_float f ≡ true) ↔ IsWhole f (pos 0)
unfolding is_zero_float
float_zero_iff nan = ((λ e. cc), absurd)
float_zero_iff (infinite b) = ((λ e. cc), absurd)
float_zero_iff (finite true m k) = ((λ e. ground arith), (λ w. ground arith))
float_zero_iff (finite false m k) = ((λ e. ground arith), (λ w. ground arith))

zero_iff : (d : Number) → (is_zero d ≡ true) ↔ Denotes d (pos 0)
unfolding is_zero
zero_iff (int (pos n)) = ((λ e. ground arith), (λ z. ground arith))
zero_iff (int (negsuc n)) = ((λ e. cc), (λ z. ground arith))
zero_iff (uint n) = ((λ e. ground arith), (λ z. ground arith))
zero_iff (float f) = float_zero_iff f

range_iff :
    (d : Number) → IsNumber d → (range_error true d ≡ none) ↔ ((n : ℤ) × Denotes d n × IsInt64 n)
unfolding range_error
range_iff (int n) r = ((λ e. (n, refl, r)), (λ z. refl))
range_iff (uint n) r = ((λ e. (pos n, refl, (ground arith, omega arith))), (λ z. ground arith))
range_iff (float f) r = (
  (λ e. (is_int64_iff f).0 (ground arith)),
  (λ z. let whole = (is_int64_iff f).1 z in ground arith),
)

range_off : (d : Number) → range_error false d ≡ none
unfolding range_error
range_off (int n) = refl
range_off (uint n) = refl
range_off (float f) = refl

zero-IsInt64 : IsInt64 (pos 0)
zero-IsInt64 = omega arith

-- strictNumbers lets a number through to an int64 setting if and only if it is an integer in the
-- range of int64, to a duration if and only if it is zero, and to any other setting always.
pub strict_numbers_iff :
    (to : Setting) (d : Number) → IsNumber d → (strict_numbers to (number d) ≡ none) ↔ Takes to d
unfolding strict_numbers is_duration is_int64_kind
strict_numbers_iff duration_setting d r = (
  (λ e. (zero_iff d).0 (ground arith)),
  (λ z.
      let zero = (zero_iff d).1 z in
      let fits = (range_iff d r).1 (pos 0, z, zero-IsInt64) in ground arith),
)
strict_numbers_iff int64_setting d r = range_iff d r
strict_numbers_iff level_setting d r = ((λ e. tt), (λ z. range_off d))
strict_numbers_iff string_setting d r = ((λ e. tt), (λ z. range_off d))
strict_numbers_iff bool_setting d r = ((λ e. tt), (λ z. range_off d))
