-- ===== src/Keylog/Hex.antt =====
-- encoding/hex.DecodeString.
use Prim.Native.Nat.{ℕ}
use go_e_bpf_proxy.Base.{
  ◌+◌, ◌-◌, ◌*◌, ◌≤◌, ◌≡◌, refl, ◌>>=◌, >>=-eq-some, ◌⊎◌, inl, inr, ◌&&◌, Option, none, some, [],
  ◌∷◌, arith, length, All, Bytes, leb, if◌then◌else◌,
}
use go_e_bpf_proxy.Keylog.Fields.{IsGraph}

pub from_hex : ℕ → Option ℕ
from_hex c =
    if leb b'0' c && leb c b'9'
    then some (c - b'0')
    else if leb b'a' c && leb c b'f'
    then some (c - b'a' + 10)
    else if leb b'A' c && leb c b'F'
    then some (c - b'A' + 10)
    else none

-- `none` is the error for an odd length or a byte that is no hex digit.
pub hex_decode : Bytes → Option Bytes
hex_decode [] = some []
hex_decode (a ∷ []) = none
hex_decode (a ∷ b ∷ r) = do
  x ← from_hex a
  y ← from_hex b
  rest ← hex_decode r
  some ((x * 16 + y) ∷ rest)

abbrev pub IsHexDigit : ℕ → Type 0
IsHexDigit c = ((b'0' ≤ c) × (c ≤ b'9')) ⊎ ((b'a' ≤ c) × (c ≤ b'f')) ⊎ ((b'A' ≤ c) × (c ≤ b'F'))

-- The text of `n` bytes in hex.
abbrev pub IsHexOf : ℕ → Bytes → Type 0
IsHexOf n s = All IsHexDigit s × (length s ≡ 2 * n)

from_hex_sound : (c : ℕ) {x : ℕ} → from_hex c ≡ some x → IsHexDigit c
unfolding from_hex
from_hex_sound c h = ground arith

from_hex_complete : (c : ℕ) → IsHexDigit c → (x : ℕ) × (from_hex c ≡ some x)
unfolding from_hex
from_hex_complete c (inl h) = (c - b'0', ground arith)
from_hex_complete c (inr (inl h)) = (c - b'a' + 10, ground arith)
from_hex_complete c (inr (inr h)) = (c - b'A' + 10, ground arith)

pub hex_decode_sound : (s : Bytes) {r : Bytes} → hex_decode s ≡ some r → IsHexOf (length r) s
unfolding hex_decode
hex_decode_sound [] h = ground arith
hex_decode_sound (a ∷ []) h = absurd (ground arith)
hex_decode_sound (a ∷ b ∷ s) {r} h =
    let (x, ex, h1) = >>=-eq-some (from_hex a) _ h in
    let (y, ey, h2) = >>=-eq-some (from_hex b) _ h1 in
    let (rest, er, h3) = >>=-eq-some (hex_decode s) _ h2 in
    let (digits, len) = hex_decode_sound s er in
    let e : r ≡ (x * 16 + y) ∷ rest = ground arith in
    ((from_hex_sound a ex, (from_hex_sound b ey, digits)), rw e (omega arith))

pub hex_decode_complete :
    (s : Bytes) (n : ℕ) → IsHexOf n s → (r : Bytes) × (hex_decode s ≡ some r) × (length r ≡ n)
unfolding hex_decode
hex_decode_complete [] n h = ([], refl, omega arith)
hex_decode_complete (a ∷ []) n h = absurd (omega (arith, h.1))
hex_decode_complete (a ∷ b ∷ s) n h =
    let (x, ex) = from_hex_complete a h.0.0 in
    let (y, ey) = from_hex_complete b h.0.1.0 in
    let (rest, er, len) = hex_decode_complete s (n - 1) (h.0.1.1, omega (arith, h.1)) in
    ((x * 16 + y) ∷ rest, rw (ex, ey, er), omega (arith, h.1))

pub IsHexOf-IsGraph : (s : Bytes) → All IsHexDigit s → All IsGraph s
IsHexOf-IsGraph [] h = tt
IsHexOf-IsGraph (c ∷ s) h = (ground arith, IsHexOf-IsGraph s h.1)
