-- ===== src/Capture/Size.antt =====
-- Block sizes of internal/capture/pcapng.go, on int64 patterns.
use go_e_bpf_proxy.Base.{ℕ, ◌+◌, ◌-◌, ◌%◌, ◌^◌, ◌≤◌, ◌<◌, ◌≡◌, arith, add64}

-- `&^ 3` clears the two low bits.
pub pad4 : ℕ → ℕ
pad4 n = let m = add64 n 3 in m - m % 4

unfoldable pub epb_size : ℕ → ℕ
unfolding pad4
epb_size n = add64 32 (pad4 n)

unfoldable pub dsb_size : ℕ → ℕ
unfolding pad4
dsb_size n = add64 20 (pad4 n)

-- Below 2 ^ 63 nothing wraps: the size is within 3 of the payload and its frame, rounded up to 4.
pub epb_size_bounds :
    (n : ℕ) → n < 2 ^ 62 → (32 + n ≤ epb_size n) × (epb_size n < 36 + n) × (epb_size n % 4 ≡ 0)
unfolding epb_size
epb_size_bounds n h = omega arith

pub dsb_size_bounds :
    (n : ℕ) → n < 2 ^ 62 → (20 + n ≤ dsb_size n) × (dsb_size n < 24 + n) × (dsb_size n % 4 ≡ 0)
unfolding dsb_size
dsb_size_bounds n h = omega arith

-- One block for two payloads is no larger than a block for each.
pub dsb_size_merge :
    (a b : ℕ) → a < 2 ^ 61 → b < 2 ^ 61 → dsb_size (a + b) ≤ dsb_size a + dsb_size b
unfolding dsb_size
dsb_size_merge a b ha hb = omega arith
