-- ===== src/Logger/Attrs.antt =====
-- What internal/shared/logger/logger.go does to the attributes of a record before they are printed:
-- replaceAttr and scalarAttr, as slog's JSONHandler calls them.
pub mod Hidden
pub mod Scalar
use Prim.Native.Nat.{ℕ}
use go_e_bpf_proxy.Base.{
  Bool, true, false, ◌||◌, Option, none, some, List, [], ◌∷◌, ◌++◌, Bytes, codes, bytes_eq, ℤ, pos,
  if◌then◌else◌,
}
use go_e_bpf_proxy.Logger.Redact.{is_sensitive}

-- A time.Time: an instant, and the offset of its location from UTC.
pub record Instant : Type 0 where
  pub nanoseconds : ℕ
  pub offset : ℤ

-- What reflect sees of a value. `composite` is a map, struct, slice, array, pointer, channel,
-- function or complex number, with what encoding/json would print of it.
pub data Reflected : Type 0 where
  bool_kind : Bool → Reflected
  int_kind : ℤ → Reflected
  uint_kind : ℕ → Reflected
  float_kind : ℕ → Reflected
  string_kind : Bytes → Reflected
  composite : Bytes → Reflected

-- How a value can speak for itself: as an error or fmt.Stringer, with what fmt.Sprint gives, as an
-- encoding.TextMarshaler, with what MarshalText gives unless it fails, or not.
pub data Methods : Type 0 where
  prints : Bytes → Methods
  marshals : Option Bytes → Methods
  mute : Methods

-- A value that slog has no kind for. `nothing` is a nil interface or a nil pointer.
pub data Opaque : Type 0 where
  nothing : Opaque
  object : Methods → Reflected → Opaque

-- A resolved slog.Value that is no group. A float64 stands as its bits.
pub data Value : Type 0 where
  text : Bytes → Value
  truth : Bool → Value
  integer : ℤ → Value
  unsigned : ℕ → Value
  float : ℕ → Value
  duration : ℤ → Value
  time : Instant → Value
  any : Opaque → Value

-- A sequence of attributes, some of which are groups.
pub data Attrs : Type 0 where
  no_attrs : Attrs
  leaf : Bytes → Value → Attrs → Attrs
  group : Bytes → Attrs → Attrs → Attrs

abbrev pub redacted_value : Bytes
redacted_value = codes "***REDACTED***"

abbrev pub unloggable_value : Bytes
unloggable_value = codes "***UNLOGGABLE***"

reflected_value : Reflected → Value
reflected_value (bool_kind b) = truth b
reflected_value (int_kind n) = integer n
reflected_value (uint_kind n) = unsigned n
reflected_value (float_kind bits) = float bits
reflected_value (string_kind s) = text s
reflected_value (composite json) = text unloggable_value

pub scalar_attr : Opaque → Value
unfolding reflected_value
scalar_attr nothing = any nothing
scalar_attr (object (prints s) r) = text s
scalar_attr (object (marshals (some s)) r) = text s
scalar_attr (object (marshals none) r) = text unloggable_value
scalar_attr (object mute r) = reflected_value r

-- slices.ContainsFunc(groups, isSensitive)
pub any_sensitive : List Bytes → Bool
any_sensitive [] = false
any_sensitive (g ∷ gs) = is_sensitive g || any_sensitive gs

utc_time : Value → Value
utc_time (time t) = time (record { nanoseconds = t.nanoseconds; offset = pos 0 })
utc_time v = v

scalar_value : Value → Value
scalar_value (any o) = scalar_attr o
scalar_value v = v

-- What stands behind the switch of replaceAttr.
pub replace_custom : List Bytes → Bytes → Value → Bytes × Value
unfolding scalar_value
replace_custom groups key v =
    if is_sensitive key || any_sensitive groups
    then (key, text redacted_value)
    else (key, scalar_value v)

pub replace_attr : List Bytes → Bytes → Value → Bytes × Value
unfolding utc_time
replace_attr [] key v =
    if bytes_eq key (codes "time")
    then (codes "timestamp", utc_time v)
    else if bytes_eq key (codes "msg")
    then (codes "message", v)
    else if bytes_eq key (codes "level") || bytes_eq key (codes "source")
    then (key, v)
    else replace_custom [] key v
replace_attr (g ∷ gs) key v = replace_custom (g ∷ gs) key v

-- The groups inside a group. slog inlines one without a name.
pub enter : List Bytes → Bytes → List Bytes
enter groups [] = groups
enter groups (c ∷ cs) = groups ++ (c ∷ cs) ∷ []

-- A group of which slog has printed `inner`. It omits one that is empty.
pub printed_group : Bytes → Attrs → Attrs → Attrs
printed_group key no_attrs rest = rest
printed_group key inner rest = group key inner rest

-- The attributes that JSONHandler prints.
pub replaced : List Bytes → Attrs → Attrs
replaced groups no_attrs = no_attrs
replaced groups (leaf key v rest) =
    let (key', v') = replace_attr groups key v in leaf key' v' (replaced groups rest)
replaced groups (group key inner rest) =
    printed_group key (replaced (enter groups key) inner) (replaced groups rest)

-- A record as `log` hands it to slog, with its time, level and message.
pub handled : Instant → Opaque → Bytes → Attrs → Attrs
handled now level msg attrs = replaced [] (
    leaf (codes "time") (time now) (
      leaf (codes "level") (any level)
        (leaf (codes "msg") (text msg) (group (codes "context") attrs no_attrs))))
