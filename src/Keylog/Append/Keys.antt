-- ===== src/Keylog/Append/Keys.antt =====
-- The key under which Append remembers a line, and the fields of that line.
use go_e_bpf_proxy.Base.{
  ◌≡◌, ◌≢◌, ◌↔◌, refl, sym, ap, ◌∙◌, none, List, [], ◌∷◌, ◌++◌, Bytes, arith, All,
}
use go_e_bpf_proxy.Keylog.Fields.{fields}
use go_e_bpf_proxy.Keylog.Hex.{IsHexDigit}
use go_e_bpf_proxy.Keylog.Nss.{
  Label, client_random, client_handshake_traffic_secret, server_handshake_traffic_secret,
  client_traffic_secret0, server_traffic_secret0, exporter_secret, label_name, validate_line,
}
use go_e_bpf_proxy.Keylog.Nss.Valid.{IsNss, validate_line_iff}
use go_e_bpf_proxy.Keylog.Append.{key_of}

NoBar : Bytes → Type 0
NoBar = All (λ c. c ≢ b'|')

-- Text without a bar is told from what follows the first bar.
bar_split :
    (a a' r r' : Bytes) → NoBar a → NoBar a' → a ++ b'|' ∷ r ≡ a' ++ b'|' ∷ r' → (a ≡ a') × (r ≡ r')
unfolding NoBar
bar_split [] [] r r' n n' e = (refl, ground arith)
bar_split [] (c ∷ a') r r' n n' e = absurd (n'.0 (ground arith))
bar_split (c ∷ a) [] r r' n n' e = absurd (n.0 (ground arith))
bar_split (c ∷ a) (c' ∷ a') r r' n n' e =
    let (same, rest) = bar_split a a' r r' n.1 n'.1 (ground arith) in (ground arith, rest)

hex-NoBar : (s : Bytes) → All IsHexDigit s → NoBar s
unfolding NoBar
hex-NoBar [] h = tt
hex-NoBar (c ∷ s) h = (ground arith, hex-NoBar s h.1)

label_name-NoBar : (l : Label) → NoBar (label_name l)
unfolding NoBar
label_name-NoBar client_random = omega arith
label_name-NoBar client_handshake_traffic_secret = omega arith
label_name-NoBar server_handshake_traffic_secret = omega arith
label_name-NoBar client_traffic_secret0 = omega arith
label_name-NoBar server_traffic_secret0 = omega arith
label_name-NoBar exporter_secret = omega arith

key_of_nss : (fs gs : List Bytes) → IsNss fs → IsNss gs → key_of fs ≡ key_of gs → fs ≡ gs
unfolding key_of
key_of_nss fs gs v u e =
    let k = sym (ap key_of v.shape) ∙ e ∙ ap key_of u.shape in
    let (same1, rest) =
      bar_split (label_name v.label) (label_name u.label) _ _ (label_name-NoBar v.label)
        (label_name-NoBar u.label) k in
    let (same2, same3) =
      bar_split v.cr u.cr v.secret u.secret (hex-NoBar v.cr v.cr_hex.0) (hex-NoBar u.cr u.cr_hex.0)
        rest in
    v.shape ∙ (λ i. same1 i ∷ same2 i ∷ same3 i ∷ []) ∙ sym u.shape

-- Two well-formed lines have one key exactly when they have the same label, client random and
-- secret.
pub key_of-fields :
    (line line' : Bytes)
    → validate_line line ≡ none
    → validate_line line' ≡ none
    → (key_of (fields line) ≡ key_of (fields line')) ↔ (fields line ≡ fields line')
key_of-fields line line' a b = (
  key_of_nss (fields line) (fields line') ((validate_line_iff line).0 a)
      ((validate_line_iff line').0 b),
  ap key_of,
)
