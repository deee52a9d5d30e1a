-- ===== src/Logger/Redact.antt =====
-- Which attribute keys internal/shared/logger/logger.go masks: isSensitive.
pub mod Labels
use Prim.Native.Nat.{ℕ}
use go_e_bpf_proxy.Base.{
  ◌+◌, Bool, true, false, ◌&&◌, ◌||◌, Option, none, some, List, [], ◌∷◌, Bytes, codes, bytes_eq,
  leb, ◌==◌, if◌then◌else◌,
}

pub is_separator : ℕ → Bool
is_separator c = c == b'_' || c == b'-'

pub lower : ℕ → ℕ
lower c = if leb b'A' c && leb c b'Z' then c + 32 else c

-- The loop over the key.
pub folded : Bytes → Bytes
folded [] = []
folded (c ∷ cs) = if is_separator c then folded cs else lower c ∷ folded cs

abbrev pub is_decimal : ℕ → Bool
is_decimal c = leb b'0' c && leb c b'9'

-- A byte before what is left of those behind it.
abbrev pub trim_step : ℕ → Bytes → Bytes
trim_step c [] = if is_decimal c then [] else c ∷ []
trim_step c (d ∷ ds) = c ∷ d ∷ ds

-- bytes.TrimRight(name, "0123456789")
pub trim_digits : Bytes → Bytes
trim_digits [] = []
trim_digits (c ∷ cs) = trim_step c (trim_digits cs)

pub has_suffix : Bytes → Bytes → Bool
has_suffix [] suffix = bytes_eq [] suffix
has_suffix (c ∷ cs) suffix = bytes_eq (c ∷ cs) suffix || has_suffix cs suffix

abbrev pub sensitive_keys : List Bytes
sensitive_keys =
    codes "clientrandom"
    ∷ codes "keylog"
    ∷ codes "key"
    ∷ codes "sessionkey"
    ∷ codes "privatekey"
    ∷ codes "psk"
    ∷ codes "plaintext"
    ∷ []

pub is_listed : Bytes → List Bytes → Bool
is_listed name [] = false
is_listed name (k ∷ ks) = bytes_eq k name || is_listed name ks

pub is_sensitive : Bytes → Bool
is_sensitive key =
    let name = trim_digits (folded key) in
    is_listed name sensitive_keys
    || has_suffix name (codes "secret")
    || has_suffix name (codes "secrets")
