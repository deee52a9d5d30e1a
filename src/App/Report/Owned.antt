-- ===== src/App/Report/Owned.antt =====
-- logCaptureStop of cmd/app/app.go: what its owned_bytes counts.
use Prim.Native.Nat.{ℕ}
use go_e_bpf_proxy.Base.{
  ◌+◌, ◌-◌, ◌%◌, ◌^◌, ◌<◌, ◌≡◌, sym, ap, ap₂, ◌∙◌, false, some, [], ◌∷◌, arith, sum_of, ℤ, pos,
  sub_ℕ, u64_mod, codes, Bytes,
}
use go_e_bpf_proxy.Capture.Packet.{Stop}
use go_e_bpf_proxy.Capture.Writer.{Writer, admit}
use go_e_bpf_proxy.Capture.Writer.Change.{admits, stops, refuses, admit-Verdict}
use go_e_bpf_proxy.Capture.Retention.{Listing, Retention, finished, room}
use go_e_bpf_proxy.Capture.Retention.Total.{file_bytes, room_lem}
use go_e_bpf_proxy.App.Report.{
  pattern, stop_owned_bytes, warn, Line, text, number, log_capture_stop,
}

-- A stop is of the writer as it stood.
admit-stop :
    (w : Writer) (n : ℕ) (w1 : Writer) (s : Stop)
    → admit w n ≡ (w1, false, some s)
    → s ≡ record { path = w.path; bytes = w.admitted; room = w.room }
admit-stop w n w1 s h = elim (admit-Verdict w n) [
  | admits e fits eq ↦ let e = ap (λ out. out.1) (sym eq ∙ h) in absurd (cc)
  | refuses e eq ↦ let e = ap (λ out. out.2) (sym eq ∙ h) in absurd (cc)
  | stops e full eq ↦ let e = ap (λ out. out.2) (sym h ∙ eq) in cc
]

taken_back :
    (max total bytes : ℕ) (room : ℤ)
    → room ≡ sub_ℕ max total
    → max < 2 ^ 63
    → total + bytes < 2 ^ 63
    → (pattern (pos max) + (u64_mod - pattern room) + bytes) % u64_mod ≡ total + bytes
unfolding pattern
taken_back max total bytes room e small fits = rw e (back max total bytes small fits)
  where
    back :
        (max total bytes : ℕ)
        → max < 2 ^ 63
        → total + bytes < 2 ^ 63
        → (pattern (pos max) + (u64_mod - pattern (sub_ℕ max total)) + bytes) % u64_mod
          ≡ total + bytes
    back max total bytes small fits = ground arith

pattern_lem : (n : ℕ) → n < 2 ^ 63 → pattern (pos n) ≡ n
unfolding pattern
pattern_lem n lt = omega arith

-- The line, by the values of its fields.
abbrev pub stop_line : Bytes → ℕ → ℕ → ℕ → Line
stop_line path capture_bytes owned_bytes max_bytes = record {
  level = warn;
  message = codes "capture stopped: --max-bytes reached";
  attrs =
      (codes "path", text path)
      ∷ (codes "capture_bytes", number capture_bytes)
      ∷ (codes "owned_bytes", number owned_bytes)
      ∷ (codes "max_bytes", number max_bytes)
      ∷ [];
}

-- The WARN line of a capture that stops says what it means to: if the writer has the room that
-- Retention left of MaxBytes, `owned_bytes` is what the finished captures hold and this run has
-- admitted, together, with no overflow, and `capture_bytes` is the latter. The sums are below 2 ^ 63.
pub log_capture_stop-owned :
    (r : Retention) (l : Listing) (max : ℕ) (w : Writer) (n : ℕ) (w1 : Writer) (s : Stop)
    → r.max_bytes ≡ pos (max + 1)
    → max + 1 < 2 ^ 63
    → w.room ≡ (room r l).0
    → sum_of file_bytes (finished r l).0 + w.admitted < 2 ^ 63
    → admit w n ≡ (w1, false, some s)
    → log_capture_stop r.max_bytes s
      ≡ stop_line w.path w.admitted (sum_of file_bytes (finished r l).0 + w.admitted) (max + 1)
unfolding log_capture_stop stop_owned_bytes
log_capture_stop-owned r l max w n w1 s is_max small is_room fits h =
    let total = sum_of file_bytes (finished r l).0 in
    let left = is_room ∙ room_lem r l max is_max small (omega arith) in
    let owned = taken_back (max + 1) total w.admitted w.room left small fits in
    ap₂ log_capture_stop is_max (admit-stop w n w1 s h)
    ∙ ap₂ (stop_line w.path w.admitted) owned (pattern_lem (max + 1) small)
