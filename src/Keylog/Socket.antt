-- ===== src/Keylog/Socket.antt =====
-- handleConn of internal/keylog/socket_server.go, with the bufio.Scanner it reads by. The bytes of a
-- connection end where it closes or where a read fails.
pub mod Lines
use Prim.Native.Nat.{ℕ}
use go_e_bpf_proxy.Base.{
  suc, ◌+◌, ◌*◌, ◌^◌, Bool, true, false, Option, none, some, List, [], ◌∷◌, ◌++◌, length, Bytes,
  leb, ◌==◌, if◌then◌else◌, add64,
}
use go_e_bpf_proxy.Keylog.Append.{KeylogWriter, AppendError, append}

-- bufio.MaxScanTokenSize: a line must end within a buffer of this size.
abbrev pub max_scan_token_size : ℕ
max_scan_token_size = 64 * 1024

-- dropCR of bufio.ScanLines.
pub drop_cr : Bytes → Bytes
drop_cr [] = []
drop_cr (c ∷ []) = if c == b'\r' then [] else c ∷ []
drop_cr (c ∷ d ∷ cs) = c ∷ drop_cr (d ∷ cs)

-- The token that is left at the end, if it is not empty.
last_token : Bytes → List Bytes
unfolding drop_cr
last_token [] = []
last_token (c ∷ cur) = drop_cr (c ∷ cur) ∷ []

-- The tokens, and whether the scanner stopped at a line that is too long. `cur` is what the buffer
-- holds of the line.
scan_loop : Bytes → Bytes → List Bytes × Bool
unfolding drop_cr last_token
scan_loop cur [] = (last_token cur, false)
scan_loop cur (b ∷ bs) = elim (b == b'\n') [
  | true ↦ (drop_cr cur ∷ (scan_loop [] bs).0, (scan_loop [] bs).1)
  | false ↦ elim (leb max_scan_token_size (length cur + 1)) [
    | true ↦ ([], true)
    | false ↦ scan_loop (cur ++ b ∷ []) bs
  ]
]

pub scan : Bytes → List Bytes × Bool
unfolding scan_loop
scan bs = scan_loop [] bs

-- `rejected` is an int64 pattern; `reject_warns` and `read_warns` count the calls of the two limited
-- loggers.
pub record Server : Type 0 where
  pub writer : KeylogWriter
  pub rejected : ℕ
  pub reject_warns : ℕ
  pub read_warns : ℕ

-- What happens to one token: the gate's answer and whether the write fails are those of its Append.
pub take_line : Server → Bytes → Bool → Bool → Server
take_line s [] open_now fails = s
take_line s (b ∷ bs) open_now fails =
    let (w, err) = append s.writer (b ∷ bs) open_now fails in
    elim err [
      | none ↦ record s { writer = w }
      | some e ↦ record s {
        writer = w;
        rejected = add64 s.rejected 1;
        reject_warns = s.reject_warns + 1;
      }
    ]

-- The gate and the failures are functions of how many tokens came before.
pub take_lines : Server → List Bytes → (ℕ → Bool) → (ℕ → Bool) → ℕ → Server
unfolding take_line
take_lines s [] open_at fails_at n = s
take_lines s (l ∷ ls) open_at fails_at n =
    take_lines (take_line s l (open_at n) (fails_at n)) ls open_at fails_at (n + 1)

-- `read_fails` says that the connection ended in a read error.
pub handle_conn : Server → Bytes → Bool → (ℕ → Bool) → (ℕ → Bool) → Server
handle_conn s bs read_fails open_at fails_at =
    let (lines, too_long) = scan bs in
    let s' = take_lines s lines open_at fails_at 0 in
    if too_long
    then record s' { read_warns = s'.read_warns + 1 }
    else if read_fails
    then record s' { read_warns = s'.read_warns + 1 }
    else s'
