-- ===== src/Keylog/Nss/Valid.antt =====
-- What ValidateLine accepts.
use Prim.Native.Nat.{ℕ}
use go_e_bpf_proxy.Base.{
  ◌≡◌, ◌≢◌, ◌↔◌, ◌⊎◌, inl, inr, refl, sym, ap, ◌∙◌, Bool, true, Option, none, some, List, [], ◌∷◌,
  ◌++◌, length, Bytes, arith, All, bytes_eq, bytes_eq_sound, Option-cases, Bool-cases, ◌==◌, ==_iff,
  subst, ◌≤◌,
}
use native.Mathlib.Decide.{ℕ_discrete}
use go_e_bpf_proxy.Keylog.Fields.{fields, fields-nil, fields_of_three, IsGraph}
use go_e_bpf_proxy.Keylog.Hex.{
  hex_decode, IsHexOf, hex_decode_sound, hex_decode_complete, IsHexOf-IsGraph,
}
use go_e_bpf_proxy.Keylog.Nss.{
  Label, client_random, client_handshake_traffic_secret, server_handshake_traffic_secret,
  client_traffic_secret0, server_traffic_secret0, exporter_secret, label_name, valid_secret_len,
  label_by_name, find_label, labels, decoded_ok, validate_fields, validate_line,
}

label_by_name-label_name : (l : Label) → label_by_name (label_name l) ≡ some l
unfolding label_by_name
label_by_name-label_name client_random = refl
label_by_name-label_name client_handshake_traffic_secret = refl
label_by_name-label_name server_handshake_traffic_secret = refl
label_by_name-label_name client_traffic_secret0 = refl
label_by_name-label_name server_traffic_secret0 = refl
label_by_name-label_name exporter_secret = refl

find_label_sound :
    (name : Bytes) (ls : List Label) {l : Label} → find_label name ls ≡ some l → name ≡ label_name l
unfolding find_label
find_label_sound name [] h = cc
find_label_sound name (k ∷ ls) {l} h = elim (Bool-cases (bytes_eq (label_name k) name)) [
  | inl same ↦ rw (← bytes_eq_sound (label_name k) name same) (ap label_name (ground arith))
  | inr other ↦ find_label_sound name ls (ground arith)
]

label_by_name_sound : (name : Bytes) {l : Label} → label_by_name name ≡ some l → name ≡ label_name l
unfolding label_by_name
label_by_name_sound name h = find_label_sound name labels h

-- 48 bytes for any label, or 32 for a TLS 1.3 one.
abbrev pub SecretLen : Label → ℕ → Type 0
SecretLen l n = (n ≡ 48) ⊎ ((l ≢ client_random) × (n ≡ 32))

valid_secret_len_sound : (l : Label) (n : ℕ) → valid_secret_len l n ≡ true → SecretLen l n
unfolding valid_secret_len
valid_secret_len_sound client_random n h = inl (ground arith)
valid_secret_len_sound l n h = elim (ℕ_discrete n 48) [
  | yes e ↦ inl e
  | no ne ↦ inr ((λ e. cc), ground arith)
]

valid_secret_len_complete : (l : Label) (n : ℕ) → SecretLen l n → valid_secret_len l n ≡ true
unfolding valid_secret_len
valid_secret_len_complete client_random n (inl e) = ground arith
valid_secret_len_complete client_random n (inr (ne, e)) = absurd (ne refl)
valid_secret_len_complete l n (inl e) = ground arith
valid_secret_len_complete l n (inr (ne, e)) = ground arith

-- The fields of an NSS line: a label's name, a client random of 32 bytes in hex, and a secret in
-- hex of a length that the label allows.
pub record IsNss (fs : List Bytes) : Type 0 where
  pub label : Label
  pub cr : Bytes
  pub secret : Bytes
  pub size : ℕ
  pub shape : fs ≡ label_name label ∷ cr ∷ secret ∷ []
  pub cr_hex : IsHexOf 32 cr
  pub secret_hex : IsHexOf size secret
  pub allowed : SecretLen label size

decoded_ok_sound :
    (test : ℕ → Bool) (o : Option Bytes)
    → decoded_ok test o ≡ true
    → (r : Bytes) × (o ≡ some r) × (test (length r) ≡ true)
decoded_ok_sound test none h = cc
decoded_ok_sound test (some r) h = (r, refl, h)

validate_fields_sound : (fs : List Bytes) → validate_fields fs ≡ none → IsNss fs
unfolding validate_fields
validate_fields_sound [] h = cc
validate_fields_sound (a ∷ []) h = cc
validate_fields_sound (a ∷ b ∷ []) h = cc
validate_fields_sound (a ∷ b ∷ c ∷ d ∷ fs) h = cc
validate_fields_sound (name ∷ cr ∷ secret ∷ []) h = elim (Option-cases (label_by_name name)) [
  | inl e ↦ absurd (ground arith)
  | inr (l, e) ↦
      let (r1, e1, t1) = decoded_ok_sound (λ n. n == 32) (hex_decode cr) (ground arith) in
      let (r2, e2, t2) = decoded_ok_sound (valid_secret_len l) (hex_decode secret) (ground arith) in
      record {
        label = l;
        cr = cr;
        secret = secret;
        size = length r2;
        shape = rw (label_by_name_sound name e);
        cr_hex = (
          (hex_decode_sound cr e1).0,
          omega (arith, (hex_decode_sound cr e1).1, (==_iff (length r1) 32).0 t1),
        );
        secret_hex = hex_decode_sound secret e2;
        allowed = valid_secret_len_sound l (length r2) t2;
      }
]

accepted_fields :
    (name cr secret r1 r2 : Bytes) (l : Label)
    → label_by_name name ≡ some l
    → hex_decode cr ≡ some r1
    → length r1 ≡ 32
    → hex_decode secret ≡ some r2
    → valid_secret_len l (length r2) ≡ true
    → validate_fields (name ∷ cr ∷ secret ∷ []) ≡ none
unfolding validate_fields
accepted_fields name cr secret r1 r2 l a b c d e = ground arith

validate_fields_complete : (fs : List Bytes) → IsNss fs → validate_fields fs ≡ none
validate_fields_complete fs v =
    let (r1, e1, l1) = hex_decode_complete v.cr 32 v.cr_hex in
    let (r2, e2, l2) = hex_decode_complete v.secret v.size v.secret_hex in
    ap validate_fields v.shape
    ∙ accepted_fields (label_name v.label) v.cr v.secret r1 r2 v.label
        (label_by_name-label_name v.label) e1 l1 e2
        (valid_secret_len_complete v.label (length r2)
          (subst (SecretLen v.label) (sym l2) v.allowed))

-- ValidateLine accepts exactly the lines whose fields are those of an NSS line.
pub validate_line_iff : (line : Bytes) → (validate_line line ≡ none) ↔ IsNss (fields line)
unfolding validate_line
validate_line_iff line =
    (validate_fields_sound (fields line), validate_fields_complete (fields line))

label_name-IsGraph : (l : Label) → All IsGraph (label_name l)
label_name-IsGraph client_random = omega arith
label_name-IsGraph client_handshake_traffic_secret = omega arith
label_name-IsGraph server_handshake_traffic_secret = omega arith
label_name-IsGraph client_traffic_secret0 = omega arith
label_name-IsGraph server_traffic_secret0 = omega arith
label_name-IsGraph exporter_secret = omega arith

label_name-ne-nil : (l : Label) → label_name l ≢ []
label_name-ne-nil client_random e = cc
label_name-ne-nil client_handshake_traffic_secret e = cc
label_name-ne-nil server_handshake_traffic_secret e = cc
label_name-ne-nil client_traffic_secret0 e = cc
label_name-ne-nil server_traffic_secret0 e = cc
label_name-ne-nil exporter_secret e = cc

hex-ne-nil : (n : ℕ) (s : Bytes) → 1 ≤ n → IsHexOf n s → s ≢ []
hex-ne-nil n [] pos h e = omega (arith, h.1)
hex-ne-nil n (c ∷ s) pos h e = cc

-- "<LABEL> <client_random> <secret>", as the interposer sends it.
abbrev pub nss_line : Label → Bytes → Bytes → Bytes
nss_line l cr secret = label_name l ++ 32 ∷ (cr ++ 32 ∷ secret)

-- A line made of a label, 32 bytes and a secret of an allowed length, both in hex of either case,
-- is accepted, and its fields are those three.
pub validate_line-nss_line :
    (l : Label) (cr secret : Bytes) (n : ℕ)
    → IsHexOf 32 cr
    → IsHexOf n secret
    → SecretLen l n
    → (fields (nss_line l cr secret) ≡ label_name l ∷ cr ∷ secret ∷ [])
      × (validate_line (nss_line l cr secret) ≡ none)
validate_line-nss_line l cr secret n hc hs a = (parts, accepted)
  where
    parts : fields (nss_line l cr secret) ≡ label_name l ∷ cr ∷ secret ∷ []
    parts =
        fields_of_three (label_name l) cr secret (label_name-IsGraph l) (IsHexOf-IsGraph cr hc.0)
          (IsHexOf-IsGraph secret hs.0) (label_name-ne-nil l) (hex-ne-nil 32 cr (omega arith) hc)
          (hex-ne-nil n secret (omega arith) hs)

    accepted : validate_line (nss_line l cr secret) ≡ none
    accepted = (validate_line_iff (nss_line l cr secret)).1 (record {
      label = l;
      cr = cr;
      secret = secret;
      size = n;
      shape = parts;
      cr_hex = hc;
      secret_hex = hs;
      allowed = a;
    })

-- The empty line is not valid.
pub nil_refused : validate_line [] ≢ none
unfolding validate_line validate_fields
nil_refused e = let bad = sym (ap validate_fields fields-nil) ∙ e in cc
