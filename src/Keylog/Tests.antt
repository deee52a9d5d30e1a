-- ===== src/Keylog/Tests.antt =====
-- The keylog on lines of an exporter secret, one of them sent twice and spaced differently.
use go_e_bpf_proxy.Base.{
  Bool, ◌+◌, ◌≡◌, ◌↔◌, refl, inr, true, false, none, List, [], ◌∷◌, arith, Bytes, codes,
}
use Prim.Native.Nat.{ℕ, zero, suc}
use go_e_bpf_proxy.Keylog.Fields.{fields}
use go_e_bpf_proxy.Keylog.Hex.{IsHexOf}
use go_e_bpf_proxy.Keylog.Nss.{exporter_secret, validate_line}
use go_e_bpf_proxy.Keylog.Nss.Valid.{
  IsNss, SecretLen, nss_line, validate_line_iff, validate_line-nss_line,
}
use go_e_bpf_proxy.Keylog.Append.{AppendCall, opened, appends}
use go_e_bpf_proxy.Keylog.Socket.{Server, handle_conn}
use go_e_bpf_proxy.Keylog.Server.{mode, Effect, socket_chmodded, new_socket_server}
use go_e_bpf_proxy.Keylog.Server.Guarded.{Served, new_socket_server-Served}
use go_e_bpf_proxy.Keylog.Socket.Lines.{sent, calls_of, rejects, handle_conn_lines}

abbrev pub digits : ℕ → ℕ → Bytes
digits c zero = []
digits c (suc n) = c ∷ digits c n

abbrev pub random : Bytes
random = digits b'a' 64

abbrev pub key : Bytes
key = digits b'7' 64

abbrev pub line : Bytes
line = nss_line exporter_secret random key

abbrev spaced : Bytes
spaced = 32 ∷ line

allowed : SecretLen exporter_secret 32
allowed = inr ((λ e. cc), refl)

random_hex : IsHexOf 32 random
random_hex = omega arith

key_hex : IsHexOf 32 key
key_hex = omega arith

validate_line_iff_example : (validate_line line ≡ none) ↔ IsNss (fields line)
validate_line_iff_example = validate_line_iff line

-- The same secret under another client random.
abbrev pub other : Bytes
other = nss_line exporter_secret key key

pub other_valid : validate_line other ≡ none
other_valid = (validate_line-nss_line exporter_secret key key 32 key_hex key_hex allowed).1

abbrev calls : List AppendCall
calls =
    record { line = line; open_now = true; fails = true }
    ∷ record { line = line; open_now = true; fails = false }
    ∷ record { line = spaced; open_now = true; fails = false }
    ∷ record { line = codes "CLIENT_RANDOM"; open_now = true; fails = false }
    ∷ []

abbrev server : Server
server = record { writer = opened true true; rejected = 2; reject_warns = 2; read_warns = 0 }

abbrev lines : List Bytes
lines = line ∷ [] ∷ codes "not a key" ∷ []

handle_conn_lines_example :
    let s' = handle_conn server (sent lines) true (λ n. true) (λ k. false) in
    (s'.writer ≡ appends server.writer (calls_of (λ n. true) 0 lines))
    × (s'.rejected ≡ server.rejected + rejects lines)
handle_conn_lines_example =
    handle_conn_lines server lines true (λ n. true) (omega arith) (omega arith)

-- The socket's mode cannot be set, in a directory of mode 0711.
abbrev no_chmod : Effect → Bool
no_chmod socket_chmodded = true
no_chmod e = false

new_socket_server-Served_example :
    Served no_chmod (mode 457) (new_socket_server no_chmod (mode 457))
new_socket_server-Served_example = new_socket_server-Served no_chmod (mode 457)
