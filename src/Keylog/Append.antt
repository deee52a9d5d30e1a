-- ===== src/Keylog/Append.antt =====
-- The Writer of internal/keylog/writer.go. Its file is the list of the lines that WriteString took;
-- how much a failed write leaves on the file is not modelled.
pub mod Keys
pub mod Dedup
pub mod Adds
use go_e_bpf_proxy.Base.{
  ◌≡◌, Bool, true, false, not, ◌&&◌, ◌||◌, Option, none, some, List, [], ◌∷◌, ◌++◌, Bytes, bytes_eq,
  if◌then◌else◌,
}
use go_e_bpf_proxy.Keylog.Fields.{fields}
use go_e_bpf_proxy.Keylog.Nss.{LineError, validate_line}

-- `gated` and `has_sink` say whether WithGate and WithSink gave a function. `sunk` are the lines
-- that were handed to the sink, oldest first.
pub record KeylogWriter : Type 0 where
  pub file : List Bytes
  pub seen : List Bytes
  pub has_sink : Bool
  pub sunk : List Bytes
  pub gated : Bool

pub data AppendError : Type 0 where
  malformed : LineError → AppendError
  write_failed : AppendError

-- The parts of fields[0], fields[1] and fields[2] with "|" between them. On fewer fields Go would
-- panic: Append has validated the line before.
pub key_of : List Bytes → Bytes
key_of (a ∷ b ∷ c ∷ fs) = a ++ b'|' ∷ (b ++ b'|' ∷ c)
key_of _ = []

unfoldable pub contains : List Bytes → Bytes → Bool
contains [] k = false
contains (j ∷ ks) k = bytes_eq j k || contains ks k

-- What stands behind the validation, under the lock. `open_now` is what the gate would report, and
-- `fails` whether the write would fail.
unfoldable pub append_valid : KeylogWriter → Bytes → Bool → Bool → KeylogWriter × Option AppendError
append_valid w line open_now fails =
    let key = key_of (fields line) in
    if w.gated && not open_now
    then (w, none)
    else if contains w.seen key
    then (w, none)
    else if fails
    then (w, some write_failed)
    else (
      record w {
        file = w.file ++ line ∷ [];
        seen = w.seen ++ key ∷ [];
        sunk = if w.has_sink then w.sunk ++ line ∷ [] else w.sunk;
      },
      none,
    )

unfoldable pub append : KeylogWriter → Bytes → Bool → Bool → KeylogWriter × Option AppendError
append w line open_now fails = elim (validate_line line) [
  | some e ↦ (w, some (malformed e))
  | none ↦ append_valid w line open_now fails
]

-- The writer that NewWriter opens, on an empty file.
abbrev pub opened : Bool → Bool → KeylogWriter
opened has_sink gated = record {
  file = [];
  seen = [];
  has_sink = has_sink;
  sunk = [];
  gated = gated;
}

-- One call of Append: the line, what the gate reports and whether the write fails.
pub record AppendCall : Type 0 where
  pub line : Bytes
  pub open_now : Bool
  pub fails : Bool

unfoldable pub appends : KeylogWriter → List AppendCall → KeylogWriter
appends w [] = w
appends w (c ∷ cs) = appends (append w c.line c.open_now c.fails).0 cs
