-- ===== src/App/Settings/EnvKey.antt =====
-- envKey against the names of the settings.
use Prim.Native.Nat.{ℕ}
use go_e_bpf_proxy.Base.{
  ◌-◌, ◌≤◌, ◌≡◌, refl, ap, ap₂, ◌∙◌, ◌⊎◌, inl, inr, [], ◌∷◌, ◌++◌, Bytes, All, arith, ◌==◌,
  if◌then◌else◌,
}
use go_e_bpf_proxy.App.Settings.{env_prefix, trim_prefix, key_byte, key_bytes, env_key}

-- A lower-case letter or a dash: every setting's name is made of these.
abbrev pub IsNameByte : ℕ → Type 0
IsNameByte c = ((b'a' ≤ c) × (c ≤ b'z')) ⊎ (c ≡ b'-')

-- A setting's name as a variable spells it: in capitals, with "_" for "-".
abbrev pub spelled_byte : ℕ → ℕ
spelled_byte c = if c == b'-' then b'_' else c - 32

abbrev pub spelled : Bytes → Bytes
spelled [] = []
spelled (c ∷ cs) = spelled_byte c ∷ spelled cs

trim_prefix-append : (whole p s : Bytes) → trim_prefix whole p (p ++ s) ≡ s
unfolding trim_prefix
trim_prefix-append whole [] s = refl
trim_prefix-append whole (p ∷ ps) s = ground (arith, trim_prefix-append whole ps s)

key_byte-spelled : (c : ℕ) → IsNameByte c → key_byte (spelled_byte c) ≡ c
unfolding key_byte
key_byte-spelled c (inl range) = ground arith
key_byte-spelled c (inr dash) = ground arith

key_bytes-spelled : (name : Bytes) → All IsNameByte name → key_bytes (spelled name) ≡ name
unfolding key_bytes
key_bytes-spelled [] h = refl
key_bytes-spelled (c ∷ cs) h = ap₂ (◌∷◌) (key_byte-spelled c h.0) (key_bytes-spelled cs h.1)

-- envKey takes the variable that spells a setting's name in capitals, with underscores and the
-- prefix, back to that name.
pub env_key-spelled :
    (name : Bytes) → All IsNameByte name → env_key (env_prefix ++ spelled name) ≡ name
unfolding env_key
env_key-spelled name h =
    ap key_bytes (trim_prefix-append (env_prefix ++ spelled name) env_prefix (spelled name))
    ∙ key_bytes-spelled name h
