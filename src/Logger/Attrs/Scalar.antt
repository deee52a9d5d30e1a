-- ===== src/Logger/Attrs/Scalar.antt =====
-- The form of what a log line holds.
use go_e_bpf_proxy.Base.{◌≢◌, Bytes}
use go_e_bpf_proxy.Logger.Attrs.{object, Value, any, Attrs, no_attrs, leaf, group}

-- A string, a bool, a number, a duration, a time or null: never a value that encoding/json reflects on.
abbrev pub IsScalar : Value → Type 0
IsScalar (any (object m r)) = ⊥
IsScalar _ = Unit {0}

-- The same keys in the same groups, with scalar values, less the groups in which nothing is printed.
pub data Scalars : Attrs → Attrs → Type 0 where
  ended : Scalars no_attrs no_attrs
  scalar :
      (k : Bytes) (v v' : Value) {r r' : Attrs}
      → IsScalar v'
      → Scalars r r'
      → Scalars (leaf k v r) (leaf k v' r')
  grouped :
      (k : Bytes) {i i' r r' : Attrs}
      → Scalars i i'
      → i' ≢ no_attrs
      → Scalars r r'
      → Scalars (group k i r) (group k i' r')
  omitted :
      (k : Bytes) {i r r' : Attrs} → Scalars i no_attrs → Scalars r r' → Scalars (group k i r) r'
