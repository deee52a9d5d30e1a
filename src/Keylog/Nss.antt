-- ===== src/Keylog/Nss.antt =====
-- internal/keylog/label.go and nss.go: which lines are well-formed NSS keylog lines.
pub mod Valid
use Prim.Native.Nat.{ℕ}
use go_e_bpf_proxy.Base.{
  ◌≡◌, Bool, true, false, ◌||◌, Option, none, some, List, [], ◌∷◌, length, Bytes, codes, bytes_eq,
  ◌==◌, if◌then◌else◌,
}
use go_e_bpf_proxy.Keylog.Fields.{fields}
use go_e_bpf_proxy.Keylog.Hex.{hex_decode}

pub data Label : Type 0 where
  client_random client_handshake_traffic_secret server_handshake_traffic_secret : Label
  client_traffic_secret0 server_traffic_secret0 exporter_secret : Label

abbrev pub label_name : Label → Bytes
label_name client_random = codes "CLIENT_RANDOM"
label_name client_handshake_traffic_secret = codes "CLIENT_HANDSHAKE_TRAFFIC_SECRET"
label_name server_handshake_traffic_secret = codes "SERVER_HANDSHAKE_TRAFFIC_SECRET"
label_name client_traffic_secret0 = codes "CLIENT_TRAFFIC_SECRET_0"
label_name server_traffic_secret0 = codes "SERVER_TRAFFIC_SECRET_0"
label_name exporter_secret = codes "EXPORTER_SECRET"

pub valid_secret_len : Label → ℕ → Bool
valid_secret_len client_random n = n == 48
valid_secret_len _ n = n == 32 || n == 48

find_label : Bytes → List Label → Option Label
find_label name [] = none
find_label name (l ∷ ls) = if bytes_eq (label_name l) name then some l else find_label name ls

abbrev pub labels : List Label
labels =
    client_random ∷ client_handshake_traffic_secret ∷ server_handshake_traffic_secret
    ∷ client_traffic_secret0 ∷ server_traffic_secret0 ∷ exporter_secret ∷ []

-- The map labelByName.
pub label_by_name : Bytes → Option Label
unfolding find_label
label_by_name name = find_label name labels

-- What is wrong with a line. Each wraps ErrMalformedLine.
pub data LineError : Type 0 where
  field_count : ℕ → LineError
  unknown_label : Bytes → LineError
  invalid_client_random : LineError
  invalid_secret : Bytes → LineError

-- `err != nil || len(bytes) != want`, for each of the two hex fields.
abbrev pub decoded_ok : (ℕ → Bool) → Option Bytes → Bool
decoded_ok test none = false
decoded_ok test (some bytes) = test (length bytes)

pub validate_fields : List Bytes → Option LineError
validate_fields (name ∷ cr ∷ secret ∷ []) = elim (label_by_name name) [
  | none ↦ some (unknown_label name)
  | some label ↦
      if decoded_ok (λ n. n == 32) (hex_decode cr)
      then if decoded_ok (valid_secret_len label) (hex_decode secret)
        then none
        else some (invalid_secret name)
      else some invalid_client_random
]
validate_fields [] = some (field_count 0)
validate_fields (a ∷ []) = some (field_count 1)
validate_fields (a ∷ b ∷ []) = some (field_count 2)
validate_fields (a ∷ b ∷ c ∷ d ∷ fs) = some (field_count (length (a ∷ b ∷ c ∷ d ∷ fs)))

-- `none` is the nil error: the line is well formed.
pub validate_line : Bytes → Option LineError
validate_line line = validate_fields (fields line)
