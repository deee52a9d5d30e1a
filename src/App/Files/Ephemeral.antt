-- ===== src/App/Files/Ephemeral.antt =====
-- What a session of cmd/app/app.go leaves in the file system.
use go_e_bpf_proxy.Base.{◌≡◌, true, none, Bytes}
use go_e_bpf_proxy.Capture.RunName.{created, failed}
use go_e_bpf_proxy.Capture.Create.{absent, Files}
use go_e_bpf_proxy.App.{Config, Faults}
use go_e_bpf_proxy.App.Files.{World, Disk, delete_keylog, clean_up}
use go_e_bpf_proxy.App.Files.Ending.{Ending}
use go_e_bpf_proxy.App.Files.Stands.{Outcome, Stands}

-- What a session leaves at a path that is no other business of it.
pub data Leaves (w : World) (fs : Files) (p : Bytes) (final : Files) : Type 0 where
  untouched : final p ≡ fs p → Leaves w fs p final
  kept_capture : w.retain ≡ true → fs p ≡ absent → Outcome w created p → Leaves w fs p final
  left_over : fs p ≡ absent → Outcome w failed p → Leaves w fs p final

-- The files behind the last two effects of Close.
abbrev closed_files : World → Disk → Files
closed_files w d = delete_keylog w.keylog_path (clean_up w.retain d.run d.files)

module _ (cfg : Config) (f : Faults) (w : World) (fs : Files) where
  abbrev first : Disk
  first = record { files = fs; run = none }
