-- ===== src/Keylog/Fields.antt =====
-- strings.Fields on the bytes of a Go string, as internal/keylog uses it. A white-space character
-- is ASCII or one of the longer ones of unicode.IsSpace in UTF-8. The bytes of such a character
-- are no part of another one, so it is found by its bytes.
use Prim.Native.Nat.{ℕ}
use go_e_bpf_proxy.Base.{
  sym, zero, suc, ◌≤◌, ◌<◌, ◌≡◌, ◌≢◌, refl, ap, ◌∙◌, Bool, ◌&&◌, ◌||◌, List, [], ◌∷◌, ◌++◌,
  append_assoc, append-nil, arith, All, Bytes, leb, ◌==◌, if◌then◌else◌,
}

pub is_ascii_space : ℕ → Bool
is_ascii_space c = (leb 9 c && leb c 13) || c == 32

-- U+1680, U+2000 to U+200A, U+2028, U+2029, U+202F, U+205F and U+3000.
pub is_wide_space : ℕ → ℕ → ℕ → Bool
is_wide_space a b c =
    (a == 0xe1 && b == 0x9a && c == 0x80)
    || (a == 0xe2
        && b == 0x80
        && ((leb 0x80 c && leb c 0x8a) || c == 0xa8 || c == 0xa9 || c == 0xaf))
    || (a == 0xe2 && b == 0x81 && c == 0x9f)
    || (a == 0xe3 && b == 0x80 && c == 0x80)

-- U+0085 and U+00A0.
pub is_latin_space : ℕ → ℕ → Bool
is_latin_space a b = a == 0xc2 && (b == 0x85 || b == 0xa0)

space_len_wide : ℕ → ℕ → Bytes → ℕ
unfolding is_wide_space
space_len_wide a b [] = 0
space_len_wide a b (c ∷ r) = if is_wide_space a b c then 3 else 0

space_len_latin : ℕ → Bytes → ℕ
unfolding is_latin_space space_len_wide
space_len_latin a [] = 0
space_len_latin a (b ∷ r) = if is_latin_space a b then 2 else space_len_wide a b r

-- The bytes of the white-space character that a text begins with, 0 if it begins with none.
pub space_len : Bytes → ℕ
unfolding is_ascii_space space_len_latin
space_len [] = 0
space_len (a ∷ r) = if is_ascii_space a then 1 else space_len_latin a r

emit : Bytes → List Bytes
emit [] = []
emit (c ∷ cur) = (c ∷ cur) ∷ []

-- The field so far is `cur`, and `skip` bytes of a white-space character are still to be passed.
fields_loop : ℕ → Bytes → Bytes → List Bytes
unfolding emit space_len
fields_loop skip cur [] = emit cur
fields_loop (suc k) cur (a ∷ r) = fields_loop k cur r
fields_loop zero cur (a ∷ r) = elim (space_len (a ∷ r)) [
  | zero ↦ fields_loop zero (cur ++ a ∷ []) r
  | suc k ↦ emit cur ++ fields_loop k [] r
]

pub fields : Bytes → List Bytes
unfolding fields_loop
fields s = fields_loop 0 [] s

-- A printable ASCII byte, so no part of a white-space character.
abbrev pub IsGraph : ℕ → Type 0
IsGraph c = (33 ≤ c) × (c < 127)

space_len_graph : (c : ℕ) (r : Bytes) → IsGraph c → space_len (c ∷ r) ≡ 0
unfolding space_len
space_len_graph c [] g = ground arith
space_len_graph c (d ∷ []) g = ground arith
space_len_graph c (d ∷ e ∷ r) g = ground arith

fields_loop-graph :
    (word rest cur : Bytes)
    → All IsGraph word
    → fields_loop 0 cur (word ++ rest) ≡ fields_loop 0 (cur ++ word) rest
unfolding fields_loop
fields_loop-graph [] rest cur a = ap (λ t. fields_loop 0 t rest) (sym (append-nil cur))
fields_loop-graph (c ∷ word) rest cur a =
    rw (space_len_graph c (word ++ rest) a.0, fields_loop)
      (fields_loop-graph word rest (cur ++ c ∷ []) a.1
        ∙ ap (λ t. fields_loop 0 t rest) (append_assoc cur (c ∷ []) word))

fields_loop-space :
    (rest cur : Bytes) → fields_loop 0 cur (32 ∷ rest) ≡ emit cur ++ fields_loop 0 [] rest
unfolding fields_loop
fields_loop-space rest cur = refl

emit_word : (word : Bytes) → word ≢ [] → emit word ≡ word ∷ []
unfolding emit
emit_word [] ne = absurd (ne refl)
emit_word (c ∷ word) ne = refl

fields_loop_word : (c : Bytes) → All IsGraph c → fields_loop 0 [] c ≡ emit c
unfolding fields_loop
fields_loop_word c g = ap (fields_loop 0 []) (sym (append-nil c)) ∙ fields_loop-graph c [] [] g

pub fields-nil : fields [] ≡ []
unfolding fields
fields-nil = refl

-- Three words of printable ASCII bytes with a space between them are the fields of that text.
pub fields_of_three :
    (a b c : Bytes)
    → All IsGraph a
    → All IsGraph b
    → All IsGraph c
    → a ≢ []
    → b ≢ []
    → c ≢ []
    → fields (a ++ 32 ∷ (b ++ 32 ∷ c)) ≡ a ∷ b ∷ c ∷ []
unfolding fields
fields_of_three a b c ga gb gc na nb nc = rw (
  fields_loop-graph a (32 ∷ (b ++ 32 ∷ c)) [] ga,
  fields_loop-space (b ++ 32 ∷ c) a,
  fields_loop-graph b (32 ∷ c) [] gb,
  fields_loop-space c b,
  fields_loop_word c gc,
  emit_word a na,
  emit_word b nb,
  emit_word c nc,
)
