-- ===== src/App/Files/Tests.antt =====
-- A session that keeps no capture, and one whose disk is full when the capture is created.
use go_e_bpf_proxy.Base.{true, false, [], ◌∷◌, Bytes, codes, bytes_eq, pos, if◌then◌else◌}
use go_e_bpf_proxy.Capture.Create.{absent, file, Files, Answers, run_capture}
use go_e_bpf_proxy.App.{Config, Faults}
use go_e_bpf_proxy.App.Files.{World}

abbrev template : Bytes
template = codes "/var/dump.pcapng"

abbrev config : Config
config = record { max_bytes = pos 1000; stats_interval = pos 60 }

-- The disk is full.
abbrev answers : Answers
answers = record {
  dirs_made = codes "/var" ∷ [];
  mkdir_ok = λ path. true;
  open_ok = λ path. true;
  ng_ok = true;
  flush_ok = false;
  headers = 10 ∷ 20 ∷ [];
  partial = 10 ∷ [];
}

abbrev faults : Faults
faults = record {
  not_tmpfs = false;
  delete_fails = false;
  load_fails = false;
  attach_fails = false;
  listen_fails = false;
  target_refused = false;
  room_fails = false;
  room_short = false;
  create_fails = true;
  keylog_fails = false;
  live_fails = false;
  close_fails = λ e. false;
}

abbrev world : World
world = record {
  pin_dir = codes "/sys/fs/bpf/p";
  load_dirs = codes "/sys/fs/bpf/p" ∷ [];
  pins = codes "/sys/fs/bpf/p/m" ∷ [];
  pins_left = [];
  owns_pin_dir = true;
  server_dirs = codes "/run/s" ∷ [];
  socket_path = codes "/run/s/k";
  socket_left = absent;
  keylog_path = codes "/run/keys";
  retain = false;
  make = run_capture answers template (pos 7);
  aged = codes "/var/dump-3.pcapng" ∷ [];
  keylogged = 1 ∷ [];
  captured = 2 ∷ [];
}

-- The keylog of a run that was killed, and a capture that was kept.
abbrev files : Files
files p =
    if bytes_eq p (codes "/run/keys")
    then file (5 ∷ [])
    else if bytes_eq p (codes "/var/dump-3.pcapng")
    then file (6 ∷ [])
    else absent
