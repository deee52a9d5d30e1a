-- ===== src/Logger/Redact/Labels.antt =====
-- Keys that spell the name of an NSS label.
use Prim.Native.Nat.{ℕ}
use go_e_bpf_proxy.Base.{
  codes, ◌+◌, ◌≤◌, ◌≡◌, refl, sym, ap, ◌∙◌, ◌⊎◌, true, false, [], ◌∷◌, ◌++◌, arith, All, Bytes,
  if◌then◌else◌, if_elim,
}
use go_e_bpf_proxy.Keylog.Nss.{
  Label, label_name, client_random, client_handshake_traffic_secret,
  server_handshake_traffic_secret, client_traffic_secret0, server_traffic_secret0, exporter_secret,
}
use go_e_bpf_proxy.Logger.Redact.{
  is_separator, lower, folded, trim_step, trim_digits, has_suffix, is_listed, is_sensitive,
}

abbrev pub IsSeparator : ℕ → Type 0
IsSeparator c = (c ≡ b'_') ⊎ (c ≡ b'-')

abbrev pub IsUpper : ℕ → Type 0
IsUpper c = (b'A' ≤ c) × (c ≤ b'Z')

abbrev pub IsDecimal : ℕ → Type 0
IsDecimal c = (b'0' ≤ c) × (c ≤ b'9')

-- Two texts are alike but for the case of their letters and for the separators in them.
pub data IsSpelling : Bytes → Bytes → Type 0 where
  done : IsSpelling [] []
  separator_left : (c : ℕ) {a b : Bytes} → IsSeparator c → IsSpelling a b → IsSpelling (c ∷ a) b
  separator_right : (c : ℕ) {a b : Bytes} → IsSeparator c → IsSpelling a b → IsSpelling a (c ∷ b)
  equal_byte : (c : ℕ) {a b : Bytes} → IsSpelling a b → IsSpelling (c ∷ a) (c ∷ b)
  lower_right :
      (c : ℕ) {a b : Bytes} → IsUpper c → IsSpelling a b → IsSpelling (c ∷ a) ((c + 32) ∷ b)
  lower_left :
      (c : ℕ) {a b : Bytes} → IsUpper c → IsSpelling a b → IsSpelling ((c + 32) ∷ a) (c ∷ b)

separator_true : (c : ℕ) → IsSeparator c → is_separator c ≡ true
unfolding is_separator
separator_true c h = ground arith

upper_false : (c : ℕ) → IsUpper c → (is_separator c ≡ false) × (is_separator (c + 32) ≡ false)
unfolding is_separator
upper_false c h = (ground arith, ground arith)

lower_same : (c : ℕ) → IsUpper c → lower c ≡ lower (c + 32)
unfolding lower
lower_same c h = ground arith

folded-IsSpelling : {a b : Bytes} → IsSpelling a b → folded a ≡ folded b
unfolding folded
folded-IsSpelling done = refl
folded-IsSpelling (separator_left c s r) = rw (separator_true c s) (folded-IsSpelling r)
folded-IsSpelling (separator_right c s r) = rw (separator_true c s) (folded-IsSpelling r)
folded-IsSpelling (equal_byte c {a} {b} r) =
    ap (λ t. if is_separator c then t else lower c ∷ t) (folded-IsSpelling r)
folded-IsSpelling (lower_right c u r) =
    let (no_sep, no_sep') = upper_false c u in
    rw (no_sep, no_sep') (λ i. lower_same c u i ∷ folded-IsSpelling r i)
folded-IsSpelling (lower_left c u r) =
    let (no_sep, no_sep') = upper_false c u in
    rw (no_sep, no_sep') (λ i. sym (lower_same c u) i ∷ folded-IsSpelling r i)

digit_folded : (c : ℕ) → IsDecimal c → (is_separator c ≡ false) × (lower c ≡ c)
unfolding is_separator lower
digit_folded c h = (ground arith, ground arith)

folded-digits : (ds : Bytes) → All IsDecimal ds → folded ds ≡ ds
unfolding folded
folded-digits [] h = refl
folded-digits (d ∷ ds) h =
    let (no_sep, as_is) = digit_folded d h.0 in rw (no_sep, as_is, folded-digits ds h.1) refl

folded-append : (a b : Bytes) → folded (a ++ b) ≡ folded a ++ folded b
unfolding folded
folded-append [] b = refl
folded-append (c ∷ a) b =
    if_elim
      (λ t. (if is_separator c then folded (a ++ b) else lower c ∷ folded (a ++ b)) ≡ t ++ folded b)
      (is_separator c) (λ sep. rw sep (folded-append a b))
      (λ no_sep. rw no_sep (ap (lower c ∷◌) (folded-append a b)))

trimmed : (ds : Bytes) → All IsDecimal ds → trim_digits ds ≡ []
unfolding trim_digits
trimmed [] h = refl
trimmed (d ∷ ds) h = rw (trimmed ds h.1) (ground arith)

trim_digits-append : (a ds : Bytes) → All IsDecimal ds → trim_digits (a ++ ds) ≡ trim_digits a
unfolding trim_digits
trim_digits-append [] ds h = trimmed ds h
trim_digits-append (c ∷ a) ds h = ap (trim_step c) (trim_digits-append a ds h)

name_of_key :
    {a key : Bytes} (ds : Bytes)
    → IsSpelling a key
    → All IsDecimal ds
    → trim_digits (folded (key ++ ds)) ≡ trim_digits (folded a)
name_of_key {a} {key} ds s h =
    ap trim_digits (folded-append key ds ∙ ap (folded key ++◌) (folded-digits ds h))
    ∙ trim_digits-append (folded key) ds h
    ∙ ap trim_digits (sym (folded-IsSpelling s))

label_name-sensitive : (l : Label) → is_sensitive (label_name l) ≡ true
unfolding is_sensitive is_listed has_suffix trim_digits folded lower is_separator
label_name-sensitive client_random = refl
label_name-sensitive client_handshake_traffic_secret = refl
label_name-sensitive server_handshake_traffic_secret = refl
label_name-sensitive client_traffic_secret0 = refl
label_name-sensitive server_traffic_secret0 = refl
label_name-sensitive exporter_secret = refl

-- The name of an NSS label is a sensitive key in every spelling: with any of its letters in the other
-- case, with separators put in or left out anywhere, and with any digits behind it.
pub is_sensitive-label_name :
    (l : Label) (key ds : Bytes)
    → IsSpelling (label_name l) key
    → All IsDecimal ds
    → is_sensitive (key ++ ds) ≡ true
unfolding is_sensitive
is_sensitive-label_name l key ds s h = rw (name_of_key ds s h) (label_name-sensitive l)

pub client_random_is_sensitive : is_sensitive (codes "client_random") ≡ true
unfolding is_sensitive is_listed has_suffix trim_digits folded lower is_separator
client_random_is_sensitive = refl
