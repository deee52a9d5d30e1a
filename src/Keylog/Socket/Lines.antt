-- ===== src/Keylog/Socket/Lines.antt =====
-- What a connection that sends whole lines does to the server.
use Prim.Native.Nat.{ℕ}
use go_e_bpf_proxy.Base.{
  ◌+◌, ◌^◌, ◌<◌, ◌≤◌, ◌≡◌, ◌≢◌, refl, ap, ◌∙◌, inl, inr, Bool, true, false, Option, none, some,
  List, [], ◌∷◌, ◌++◌, append_assoc, append-nil, arith, length, length-append, All, Bytes, leb,
  ◌==◌, if◌then◌else◌, add64, Option-cases, Bool-cases, if_elim, not, ◌&&◌,
}
use go_e_bpf_proxy.Keylog.Nss.{LineError, validate_line}
use go_e_bpf_proxy.Keylog.Fields.{fields}
use go_e_bpf_proxy.Keylog.Append.{
  key_of, KeylogWriter, AppendCall, AppendError, malformed, contains, append_valid, append, appends,
}
use go_e_bpf_proxy.Keylog.Socket.{
  max_scan_token_size, drop_cr, last_token, scan_loop, scan, Server, take_line, take_lines,
  handle_conn,
}

-- A byte of a line.
abbrev pub IsInLine : ℕ → Type 0
IsInLine c = (c ≢ b'\n') × (c ≢ b'\r')

-- A line that the scanner takes whole.
abbrev pub IsLine : Bytes → Type 0
IsLine l = All IsInLine l × (length l < max_scan_token_size)

-- Lines as they are sent, each with its newline.
abbrev pub sent : List Bytes → Bytes
sent [] = []
sent (l ∷ ls) = l ++ b'\n' ∷ sent ls

drop_cr_same : (l : Bytes) → All IsInLine l → drop_cr l ≡ l
unfolding drop_cr
drop_cr_same [] h = refl
drop_cr_same (c ∷ []) h = ground arith
drop_cr_same (c ∷ d ∷ cs) h = ap (c ∷◌) (drop_cr_same (d ∷ cs) h.1)

scan_loop-line :
    (cur l rest : Bytes)
    → All IsInLine l
    → length cur + length l < max_scan_token_size
    → scan_loop cur (l ++ b'\n' ∷ rest)
      ≡ (drop_cr (cur ++ l) ∷ (scan_loop [] rest).0, (scan_loop [] rest).1)
unfolding scan_loop
scan_loop-line cur [] rest h small = rw (append-nil cur) refl
scan_loop-line cur (c ∷ l) rest h small =
    let inside : (c == b'\n') ≡ false = ground arith in
    let fits : leb max_scan_token_size (length cur + 1) ≡ false = ground arith in
    rw (inside, scan_loop, fits)
      (scan_loop-line (cur ++ c ∷ []) l rest h.1 (omega (arith, length-append cur (c ∷ [])))
        ∙ ap (λ t. (drop_cr t ∷ (scan_loop [] rest).0, (scan_loop [] rest).1))
            (append_assoc cur (c ∷ []) l))

scan-sent : (ls : List Bytes) → All IsLine ls → scan (sent ls) ≡ (ls, false)
unfolding scan scan_loop last_token
scan-sent [] h = refl
scan-sent (l ∷ ls) h =
    scan_loop-line [] l (sent ls) h.0.0 (omega (arith, h.0.1))
    ∙ (λ i. (drop_cr_same l h.0.0 i ∷ (scan-sent ls h.1 i).0, (scan-sent ls h.1 i).1))

-- How many lines are rejected: those that are neither empty nor well formed.
abbrev pub is_rejected : Bytes → Bool
is_rejected [] = false
is_rejected (c ∷ cs) = elim (validate_line (c ∷ cs)) [ none ↦ false | some e ↦ true ]

abbrev pub rejects : List Bytes → ℕ
rejects [] = 0
rejects (l ∷ ls) = (if is_rejected l then 1 else 0) + rejects ls

-- The calls of Append: every line that is not empty, with what the gate answers then.
abbrev pub calls_of : (ℕ → Bool) → ℕ → List Bytes → List AppendCall
calls_of open_at n [] = []
calls_of open_at n ([] ∷ ls) = calls_of open_at (n + 1) ls
calls_of open_at n ((c ∷ cs) ∷ ls) =
    record { line = c ∷ cs; open_now = open_at n; fails = false } ∷ calls_of open_at (n + 1) ls

append_valid-no_error :
    (w : KeylogWriter) (line : Bytes) (open_now : Bool)
    → (append_valid w line open_now false).1 ≡ none
unfolding append_valid
append_valid-no_error w line open_now =
    if_elim Quiet (w.gated && not open_now) (λ shut. refl)
      (λ _. if_elim Quiet (contains w.seen (key_of (fields line))) (λ seen. refl) (λ _. refl))
  where
    Quiet : KeylogWriter × Option AppendError → Type 0
    Quiet out = out.1 ≡ none

module _ (s : Server) (c : ℕ) (cs : Bytes) (open_now : Bool) where
  abbrev out : KeylogWriter × Option AppendError
  out = append s.writer (c ∷ cs) open_now false

  append_ok : validate_line (c ∷ cs) ≡ none → out.1 ≡ none
  unfolding append
  append_ok good = rw (good, append) (append_valid-no_error s.writer (c ∷ cs) open_now)

  append_bad :
      {e : LineError} → validate_line (c ∷ cs) ≡ some e → out ≡ (s.writer, some (malformed e))
  unfolding append
  append_bad bad = rw (bad, append) refl

  take_ok : out.1 ≡ none → take_line s (c ∷ cs) open_now false ≡ record s { writer = out.0 }
  unfolding take_line
  take_ok e = rw (e, take_line) refl

  take_bad :
      {e : AppendError}
      → out.1 ≡ some e
      → take_line s (c ∷ cs) open_now false ≡ record s {
        writer = out.0;
        rejected = add64 s.rejected 1;
        reject_warns = s.reject_warns + 1;
      }
  unfolding take_line
  take_bad e = rw (e, take_line) refl

  take_line_lem :
      s.rejected + 1 < 2 ^ 63
      → ((take_line s (c ∷ cs) open_now false).writer ≡ out.0)
        × ((take_line s (c ∷ cs) open_now false).rejected
            ≡ s.rejected + (if is_rejected (c ∷ cs) then 1 else 0))
  take_line_lem small = elim (Option-cases (validate_line (c ∷ cs))) [
    | inr (e, bad) ↦
        let eq = take_bad (ap (λ o. o.1) (append_bad bad)) in
        let r : is_rejected (c ∷ cs) ≡ true = rw (bad, is_rejected) refl in
        (ap (λ t. t.writer) eq, ap (λ t. t.rejected) eq ∙ rw r (omega arith))
    | inl good ↦
        let eq = take_ok (append_ok good) in
        let r : is_rejected (c ∷ cs) ≡ false = rw (good, is_rejected) refl in
        (ap (λ t. t.writer) eq, ap (λ t. t.rejected) eq ∙ rw r (omega arith))
  ]

take_lines_lem :
    (s : Server) (ls : List Bytes) (open_at : ℕ → Bool) (n : ℕ)
    → s.rejected + length ls < 2 ^ 63
    → ((take_lines s ls open_at (λ k. false) n).writer ≡ appends s.writer (calls_of open_at n ls))
      × ((take_lines s ls open_at (λ k. false) n).rejected ≡ s.rejected + rejects ls)
unfolding take_lines take_line appends
take_lines_lem s [] open_at n h = (refl, omega arith)
take_lines_lem s ([] ∷ ls) open_at n h =
    let rest = take_lines_lem s ls open_at (n + 1) (omega arith) in (rest.0, omega (arith, rest.1))
take_lines_lem s ((c ∷ cs) ∷ ls) open_at n h =
    let first = take_line_lem s c cs (open_at n) (omega arith) in
    let few : (if is_rejected (c ∷ cs) then 1 else 0) ≤ 1 = ground arith in
    let s1 = take_line s (c ∷ cs) (open_at n) false in
    let rest = take_lines_lem s1 ls open_at (n + 1) (omega (arith, first.1)) in
    (
      rest.0 ∙ ap (λ w. appends w (calls_of open_at (n + 1) ls)) first.0,
      omega (arith, rest.1, first.1),
    )

-- A connection that sends whole lines, none longer than the scanner's buffer and none with a
-- carriage return, hands every one that is not empty to Append, in order, and counts as rejected
-- exactly those that are not well formed, whether the gate is open or not, if no write fails and
-- the count stays below 2 ^ 63.
pub handle_conn_lines :
    (s : Server) (ls : List Bytes) (read_fails : Bool) (open_at : ℕ → Bool)
    → All IsLine ls
    → s.rejected + length ls < 2 ^ 63
    → let s' = handle_conn s (sent ls) read_fails open_at (λ k. false) in
      (s'.writer ≡ appends s.writer (calls_of open_at 0 ls))
      × (s'.rejected ≡ s.rejected + rejects ls)
unfolding handle_conn
handle_conn_lines s ls read_fails open_at h small =
    let done = take_lines_lem s ls open_at 0 small in
    elim (Bool-cases read_fails) [
      | inl failed ↦ rw (scan-sent ls h, failed) done
      | inr closed ↦ rw (scan-sent ls h, closed) done
    ]
