-- ===== src/Capture/Writer/Tests.antt =====
-- Runs of the Writer on a file with room for one packet and one line.
use go_e_bpf_proxy.Base.{
  ◌⊎◌, if◌then◌else◌, map, length, ◌+◌, ◌≤◌, ◌≡◌, refl, true, false, some, List, [], ◌∷◌, ◌++◌,
  arith, sum_of, sum_of-append, All, ℤ, pos,
}
use Prim.Native.Nat.{ℕ}
use go_e_bpf_proxy.Capture.Size.{epb_size, dsb_size}
use go_e_bpf_proxy.Capture.Packet.{
  CaptureInfo, HeldPacket, Options, Stop, Call, epb, dsb, flush, close_fd, Pcapgo,
}
use go_e_bpf_proxy.Capture.Writer.{
  max_held_bytes, Writer, new_writer, link_type, state, set_room, admit, secrets_payload, overflow,
  ripe, stamp, enqueue, add_secret, header_size, write_secrets, write_packets, write_held,
  write_packet, drain, close_file, close_drained, tick, close,
}
use go_e_bpf_proxy.Capture.Writer.Step.{
  Event, packet, secret, ticks, step, run, packet_bytes, packet_call, secret_calls,
}
use go_e_bpf_proxy.Capture.Writer.Room.{SizesAsDocumented, run-file_size}
use go_e_bpf_proxy.Capture.Writer.Landed.{Landed}
use go_e_bpf_proxy.Capture.Writer.Content.{epbs, dsb_bytes, terminate}
use go_e_bpf_proxy.Capture.Writer.Effect.{offered, offered_lines}
use go_e_bpf_proxy.Capture.Writer.History.{run-close, run-on_stop}
use go_e_bpf_proxy.Capture.Writer.Memory.{run-memory}
use go_e_bpf_proxy.Capture.Writer.Order.{Ahead, run-Ahead}
use go_e_bpf_proxy.Capture.Writer.Hold.{IsRipe, IsUnripe, drain-window}

abbrev pub block_size : Call → ℕ
block_size (epb ci bytes) = epb_size (length bytes)
block_size (dsb bytes) = dsb_size (length bytes)
block_size flush = 0
block_size close_fd = 0

abbrev pub disk : Pcapgo
disk = record {
  header_size = λ link. 136;
  ethernet = 1;
  fails = λ cs c. false;
  file_size = λ link cs. 136 + sum_of block_size cs;
}

abbrev pub options : Options
options = record { link_type = 0; room = pos 200; on_stop = true }

abbrev pub info : CaptureInfo
info = record { timestamp = 5; capture_length = 4; wire_length = 4; interface_index = 0 }

abbrev pub history : List Event
history = packet info (1 ∷ 2 ∷ 3 ∷ 4 ∷ []) 10 ∷ secret (9 ∷ 9 ∷ []) ∷ packet info (7 ∷ []) 20 ∷ []

abbrev pub final : Writer
final = record (new_writer disk [] options) {
  held = record { ci = info; bytes = 1 ∷ 2 ∷ 3 ∷ 4 ∷ []; at = 10 } ∷ [];
  held_bytes = 4;
  pending = (9 ∷ 9 ∷ []) ∷ [];
  admitted = 196;
  stopped = true;
}

abbrev pub full : Stop
full = record { path = []; bytes = 196; room = pos 200 }

abbrev pub file : Writer
file = new_writer disk [] options

pub ran : run disk file history ≡ some (final, full ∷ [])
unfolding run step new_writer state set_room admit secrets_payload overflow ripe stamp enqueue
    add_secret header_size link_type write_secrets write_packets write_held write_packet drain
    close_file close_drained tick close epb_size dsb_size
ran = refl

disk_append :
    (cs : List Call) (c : Call)
    → disk.file_size 1 (cs ++ c ∷ []) ≡ disk.file_size 1 cs + block_size c
disk_append cs c = omega (arith, sum_of-append block_size cs (c ∷ []))

pub disk-SizesAsDocumented : SizesAsDocumented disk (link_type disk options)
unfolding link_type
disk-SizesAsDocumented = record {
  headers = refl;
  on_epb = λ cs ci bytes. omega (arith, disk_append cs (epb ci bytes));
  on_dsb = λ cs bytes. omega (arith, disk_append cs (dsb bytes));
  on_flush = λ cs. omega (arith, disk_append cs flush);
  on_close = λ cs. omega (arith, disk_append cs close_fd);
}

head_fits : header_size disk options ≤ 200
unfolding header_size link_type
head_fits = omega arith

run-file_size_example : disk.file_size (link_type disk options) final.calls ≤ 200
run-file_size_example =
    run-file_size disk [] options 200 history disk-SizesAsDocumented (omega arith) (omega arith)
      (omega arith) head_fits (omega arith) ran

run-close_example :
    (before after : List Event) × (history ≡ before ++ after)
    × (epbs (close disk final).0.calls ≡ offered before)
    × (dsb_bytes (close disk final).0.calls ≡ terminate (offered_lines before))
    × Landed disk (close disk final).0.calls (offered before) (terminate (offered_lines before))
    × ((final.stopped ≡ true) ⊎ (after ≡ []))
unfolding new_writer
run-close_example = run-close disk [] options history ran refl

run-on_stop_example :
    ((final.stopped ≡ false) × (full ∷ [] ≡ []))
    ⊎ ((final.stopped ≡ true)
        × (n : ℤ) × (full ∷ [] ≡ (
            if options.on_stop
            then record { path = []; bytes = final.admitted; room = n } ∷ []
            else [])))
run-on_stop_example = run-on_stop disk [] options history ran

run-memory_example :
    (w : Writer) × (calls : List Stop) × (run disk file history ≡ some (w, calls))
    × (w.held_bytes ≡ sum_of packet_bytes w.held)
    × (w.held_bytes ≤ max_held_bytes)
run-memory_example = run-memory disk [] options history

-- A capture with a packet and a line in memory drains them in one tick and closes.
abbrev drained : Writer
drained = record final {
  calls = dsb (9 ∷ 9 ∷ b'\n' ∷ []) ∷ epb info (1 ∷ 2 ∷ 3 ∷ 4 ∷ []) ∷ flush ∷ flush ∷ close_fd ∷ [];
  held = [];
  held_bytes = 0;
  pending = [];
  closed = true;
  draining = false;
}

ran_on : run disk final (ticks 2_000_000_000 ∷ []) ≡ some (drained, [])
unfolding run step new_writer state set_room admit secrets_payload overflow ripe stamp enqueue
    add_secret header_size link_type write_secrets write_packets write_held write_packet drain
    close_file close_drained tick close epb_size dsb_size
ran_on = refl

run-Ahead_example : Ahead ((9 ∷ 9 ∷ []) ∷ []) final drained
run-Ahead_example = run-Ahead disk final (9 ∷ 9 ∷ []) [] (ticks 2_000_000_000 ∷ []) refl ran_on

drain-window_example :
    let w' = (drain disk final 2_000_000_000).0 in
    (old : List HeldPacket) × (final.held ≡ old ++ w'.held)
    × All (IsRipe 2_000_000_000) old
    × All (IsUnripe 2_000_000_000) w'.held
    × (w'.calls
        ≡ final.calls ++ (secret_calls final.pending ++ (map packet_call old ++ flush ∷ [])))
    × (w'.pending ≡ [])
drain-window_example = drain-window disk final 2_000_000_000 (omega arith)
