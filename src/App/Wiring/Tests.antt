-- ===== src/App/Wiring/Tests.antt =====
-- A run with room for one line in its capture.
use go_e_bpf_proxy.Base.{◌≡◌, refl, ◌⊎◌, true, false, some, List, [], ◌∷◌, ◌++◌, Bytes}
use go_e_bpf_proxy.Capture.Writer.{Writer, new_writer, close}
use go_e_bpf_proxy.Capture.Packet.{Stop}
use go_e_bpf_proxy.Capture.Writer.Step.{ticks, closes, run}
use go_e_bpf_proxy.Capture.Writer.Landed.{Landed}
use go_e_bpf_proxy.Capture.Writer.Tests.{disk, options, info}
use go_e_bpf_proxy.Keylog.Append.{KeylogWriter, key_of, contains, opened}
use go_e_bpf_proxy.Keylog.Fields.{fields}
use go_e_bpf_proxy.Keylog.Tests.{line, other, other_valid}
use go_e_bpf_proxy.App.Wiring.{packet_read, drained, Move, works, appends, append_line}
use go_e_bpf_proxy.App.Wiring.Late.{late_line}

-- A packet comes between the gate and the sink of the first line.
abbrev day : List Move
day =
    works (drained 5)
    ∷ appends line (packet_read info (1 ∷ 2 ∷ []) 10 ∷ []) false
    ∷ works (drained 2_000_000_000)
    ∷ appends other [] false
    ∷ []

running : (new_writer disk (b'r' ∷ []) options).stopped ≡ false
unfolding new_writer
running = refl

fresh : contains (opened true true).seen (key_of (fields other)) ≡ false
unfolding contains
fresh = refl

late_line_example :
    (k' : KeylogWriter) × (w' w'' : Writer) × (stops : List Stop) × (append_line disk
        (record {
          keylog = opened true true;
          capture = some (close disk (new_writer disk (b'r' ∷ []) options)).0;
        })
        other
        []
        false
      ≡ some (record { keylog = k'; capture = some w' }))
    × (k'.file ≡ [] ++ other ∷ [])
    × ((w'.stopped ≡ true)
        ⊎ (w'.pending ≡ (close disk (new_writer disk (b'r' ∷ []) options)).0.pending ++ other ∷ []))
    × (run disk w' (ticks 7 ∷ closes ∷ []) ≡ some (w'', stops))
    × (w''.calls ≡ (close disk (new_writer disk (b'r' ∷ []) options)).0.calls)
    × ((more : List Bytes) × (w''.pending ≡ w'.pending ++ more))
late_line_example =
    late_line disk (opened true true) (new_writer disk (b'r' ∷ []) options) other
      (ticks 7 ∷ closes ∷ []) running other_valid fresh refl (tt, (tt, tt))
