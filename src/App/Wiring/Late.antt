-- ===== src/App/Wiring/Late.antt =====
-- App.Close of cmd/app/app.go closes the capture first and the keylog socket server behind it. A line
-- may come in between.
use go_e_bpf_proxy.Base.{
  ◌≡◌, refl, ap, ◌∙◌, ◌⊎◌, Bool, true, false, none, some, List, [], ◌∷◌, ◌++◌, All, arith, length,
  drop, drop-length_append, Bytes,
}
use go_e_bpf_proxy.Capture.Packet.{Pcapgo, Stop}
use go_e_bpf_proxy.Capture.Writer.{Writer, state, add_secret, close}
use go_e_bpf_proxy.Capture.Writer.Step.{Event, run}
use go_e_bpf_proxy.Capture.Writer.Shut.{IsQuiet, close-Shut, secret-Stays, secret_kept, run-Stays}
use go_e_bpf_proxy.Capture.Writer.Content.{close-Kept}
use go_e_bpf_proxy.Keylog.Fields.{fields}
use go_e_bpf_proxy.Keylog.Nss.{validate_line}
use go_e_bpf_proxy.Keylog.Nss.Valid.{nil_refused}
use go_e_bpf_proxy.Keylog.Append.{KeylogWriter, key_of, contains, append, append_valid}
use go_e_bpf_proxy.App.Wiring.{
  capture_state, is_active, capture_active, sink, work_all, append_line,
}

active_running : (w : Writer) → w.stopped ≡ false → capture_active (some w) ≡ true
unfolding capture_active capture_state is_active state
active_running w off = rw off refl

appended :
    (k : KeylogWriter) (line : Bytes) (open_now : Bool)
    → open_now ≡ true
    → validate_line line ≡ none
    → contains k.seen (key_of (fields line)) ≡ false
    → k.has_sink ≡ true
    → let k' = (append k line open_now false).0 in
      (k'.file ≡ k.file ++ line ∷ []) × (k'.sunk ≡ k.sunk ++ line ∷ [])
unfolding append append_valid
appended k line open_now on valid fresh has_sink = (ground arith, ground arith)

-- A valid, new line that comes when Close has closed a capture that had not stopped: Append writes
-- it to the keylog and hands it to the capture, which keeps it in memory unless it stops at its room.
-- Whatever lines, rooms, ticks and calls of Close come then, the writer makes no further call on the
-- file, and the line stays in memory.
pub late_line :
    (p : Pcapgo) (k : KeylogWriter) (w : Writer) (line : Bytes) (es : List Event)
    → w.stopped ≡ false
    → validate_line line ≡ none
    → contains k.seen (key_of (fields line)) ≡ false
    → k.has_sink ≡ true
    → All IsQuiet es
    → (k' : KeylogWriter) × (w' w'' : Writer) × (stops : List Stop) × (append_line p
          (record { keylog = k; capture = some (close p w).0 })
          line
          []
          false
        ≡ some (record { keylog = k'; capture = some w' }))
      × (k'.file ≡ k.file ++ line ∷ [])
      × ((w'.stopped ≡ true) ⊎ (w'.pending ≡ (close p w).0.pending ++ line ∷ []))
      × (run p w' es ≡ some (w'', stops))
      × (w''.calls ≡ (close p w).0.calls)
      × ((more : List Bytes) × (w''.pending ≡ w'.pending ++ more))
unfolding append_line work_all sink
late_line p k w [] es off valid fresh has_sink quiet = absurd (nil_refused valid)
late_line p k w (b ∷ bs) es off valid fresh has_sink quiet =
    let line : Bytes = b ∷ bs in
    let closed = (close p w).0 in
    let on = active_running closed ((close-Kept p w).stopped ∙ off) in
    let k' = (append k line (capture_active (some closed)) false).0 in
    let (file, sunk) = appended k line (capture_active (some closed)) on valid fresh has_sink in
    let now : drop (length k.sunk) k'.sunk ≡ line ∷ [] =
      ap (drop (length k.sunk)) sunk ∙ drop-length_append k.sunk (line ∷ []) in
    let taken = secret-Stays p closed line (close-Shut p w) in
    let (w'', told, ran, later) = run-Stays p (add_secret closed line).0 es taken.shut quiet in
    (
      k',
      (add_secret closed line).0,
      w'',
      told,
      ap (λ ls. some (record { keylog = k'; capture = sink p (some closed) ls })) now,
      file,
      secret_kept p closed b bs,
      ran,
      later.calls ∙ taken.calls,
      (later.more, later.pending),
    )
