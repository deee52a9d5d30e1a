-- ===== src/Logger/Attrs/Hidden.antt =====
-- What no log line tells.
use go_e_bpf_proxy.Base.{
  ◌≡◌, refl, sym, ap, ap₂, ◌∙◌, true, ◌||◌, List, [], ◌∷◌, ◌++◌, Bytes, codes, arith,
}
use go_e_bpf_proxy.Logger.Redact.{is_sensitive}
use go_e_bpf_proxy.Logger.Attrs.{
  Instant, Opaque, object, mute, composite, Value, any, Attrs, no_attrs, leaf, group, any_sensitive,
  scalar_value, scalar_attr, reflected_value, replace_custom, replace_attr, enter, printed_group,
  replaced, handled,
}

-- Attributes that differ in nothing but the values under a sensitive key or in a sensitive group,
-- and the content of maps, structs and the like that do not speak for themselves.
pub data Alike : List Bytes → Attrs → Attrs → Type 0 where
  ended : {gs : List Bytes} → Alike gs no_attrs no_attrs
  same :
      {gs : List Bytes} (k : Bytes) (v : Value) {r r' : Attrs}
      → Alike gs r r'
      → Alike gs (leaf k v r) (leaf k v r')
  secret_key :
      {gs : List Bytes} (k : Bytes) (v v' : Value) {r r' : Attrs}
      → is_sensitive k ≡ true
      → Alike gs r r'
      → Alike gs (leaf k v r) (leaf k v' r')
  secret_group :
      {gs : List Bytes} (k : Bytes) (v v' : Value) {r r' : Attrs}
      → any_sensitive gs ≡ true
      → Alike gs r r'
      → Alike gs (leaf k v r) (leaf k v' r')
  content :
      {gs : List Bytes} (k : Bytes) (json json' : Bytes) {r r' : Attrs}
      → Alike gs r r'
      → Alike gs
          (leaf k (any (object mute (composite json))) r)
          (leaf k (any (object mute (composite json'))) r')
  grouped :
      {gs : List Bytes} (k : Bytes) {i i' r r' : Attrs}
      → Alike (enter gs k) i i'
      → Alike gs r r'
      → Alike gs (group k i r) (group k i' r')

abbrev pub IsNested : List Bytes → Type 0
IsNested gs = (g : Bytes) × (hs : List Bytes) × (gs ≡ g ∷ hs)

pub enter-IsNested : (gs : List Bytes) (k : Bytes) → IsNested gs → IsNested (enter gs k)
unfolding enter
enter-IsNested gs [] n = n
enter-IsNested gs (c ∷ cs) (g, hs, e) = (g, hs ++ (c ∷ cs) ∷ [], ap (λ t. t ++ (c ∷ cs) ∷ []) e)

pub replace_nested :
    (gs : List Bytes) (k : Bytes) (v : Value)
    → IsNested gs
    → replace_attr gs k v ≡ replace_custom gs k v
unfolding replace_attr
replace_nested gs k v (g, hs, e) = rw e refl

masked_key :
    (gs : List Bytes) (k : Bytes) (v v' : Value)
    → (is_sensitive k || any_sensitive gs) ≡ true
    → replace_custom gs k v ≡ replace_custom gs k v'
unfolding replace_custom
masked_key gs k v v' s = rw s refl

masked_content :
    (gs : List Bytes) (k json json' : Bytes)
    → replace_custom gs k (any (object mute (composite json)))
      ≡ replace_custom gs k (any (object mute (composite json')))
unfolding replace_custom scalar_value scalar_attr reflected_value
masked_content gs k json json' = refl

next_leaf :
    (gs : List Bytes) (k : Bytes) (v v' : Value) (r r' : Attrs)
    → IsNested gs
    → replace_custom gs k v ≡ replace_custom gs k v'
    → replaced gs r ≡ replaced gs r'
    → replaced gs (leaf k v r) ≡ replaced gs (leaf k v' r')
unfolding replaced
next_leaf gs k v v' r r' n here rest =
    let at_key = replace_nested gs k v n ∙ here ∙ sym (replace_nested gs k v' n) in
    ap₂ (λ (kv : Bytes × Value) t. leaf kv.0 kv.1 t) at_key rest

replaced-Alike :
    {gs : List Bytes} {xs ys : Attrs}
    → IsNested gs
    → Alike gs xs ys
    → replaced gs xs ≡ replaced gs ys
unfolding replaced
replaced-Alike n ended = refl
replaced-Alike n (same {gs} k v a) = next_leaf gs k v v _ _ n refl (replaced-Alike n a)
replaced-Alike n (secret_key {gs} k v v' s a) =
    next_leaf gs k v v' _ _ n (masked_key gs k v v' (ground arith)) (replaced-Alike n a)
replaced-Alike n (secret_group {gs} k v v' s a) =
    next_leaf gs k v v' _ _ n (masked_key gs k v v' (ground arith)) (replaced-Alike n a)
replaced-Alike n (content {gs} k json json' a) =
    next_leaf gs k (any (object mute (composite json))) (any (object mute (composite json'))) _ _ n
      (masked_content gs k json json') (replaced-Alike n a)
replaced-Alike n (grouped {gs} k i a) =
    ap₂ (printed_group k) (replaced-Alike (enter-IsNested gs k n) i) (replaced-Alike n a)

-- Two calls of the logger that differ only in such values print the same: neither what stands under
-- a sensitive key, or in a sensitive group at any depth, nor the inside of an opaque value that does
-- not speak for itself, has any part in the line.
pub handled-Alike :
    (now : Instant) (level : Opaque) (msg : Bytes) (xs ys : Attrs)
    → Alike (codes "context" ∷ []) xs ys
    → handled now level msg xs ≡ handled now level msg ys
unfolding handled replaced enter
handled-Alike now level msg xs ys a = rw (replaced-Alike (codes "context", [], refl) a) refl
