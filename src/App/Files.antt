-- ===== src/App/Files.antt =====
-- What Start and Close of cmd/app/app.go do to the files: deleteKeylog, the run's capture and its
-- Cleanup, the pins of Load, and the socket and the keylog of NewSocketServer, as effects on a file
-- system. What the run writes, and which paths its age pass deletes, are given; os.Remove finds no
-- directory at the path of a file, and the pin directory empty.
pub mod Ending
pub mod Stands
pub mod Ephemeral
mod Tests
use go_e_bpf_proxy.Base.{
  Bool, true, false, not, Option, none, some, List, [], ◌∷◌, ◌++◌, Bytes, if◌then◌else◌,
}
use go_e_bpf_proxy.Capture.RunName.{RunCapture, created, failed, all_taken}
use go_e_bpf_proxy.Capture.Create.{Entry, absent, other, file, Files, put, is_absent, with_dirs}
use go_e_bpf_proxy.App.{
  Resource, loader, capture, keylog_server, Effect, opened, closed, keylog_deleted, age_pass,
  load_failed, keylog_failed, capture_failed, cleaned_up, Config, Faults, App, Started,
  close_effects, start,
}

-- `make` is CreateRunCapture. `keylogged` and `captured` are what the files hold when they are
-- closed. `load_dirs` and `server_dirs` are the directories that MkdirAll comes to in Load, and in
-- NewSocketServer for the socket and the keylog; `pins` is where the maps are pinned, `pins_left`
-- where they are by a Load that fails, and `owns_pin_dir` is the loader's. `socket_left` is what a
-- NewSocketServer that fails leaves at the socket's path.
pub record World : Type 0 where
  pub pin_dir : Bytes
  pub load_dirs : List Bytes
  pub pins : List Bytes
  pub pins_left : List Bytes
  pub owns_pin_dir : Bool
  pub server_dirs : List Bytes
  pub socket_path : Bytes
  pub socket_left : Entry
  pub keylog_path : Bytes
  pub retain : Bool
  pub make : Files → Files × RunCapture
  pub aged : List Bytes
  pub keylogged : Bytes
  pub captured : Bytes

-- The file system, and Run of the retention.
pub record Disk : Type 0 where
  pub files : Files
  pub run : Option Bytes

-- deleteKeylog
unfoldable pub delete_keylog : Bytes → Files → Files
delete_keylog [] fs = fs
delete_keylog (c ∷ cs) fs = put fs (c ∷ cs) absent

-- Retention.Cleanup
unfoldable pub clean_up : Bool → Option Bytes → Files → Files
clean_up retain none fs = fs
clean_up retain (some run) fs = if retain then fs else put fs run absent

unfoldable pub delete_all : List Bytes → Files → Files
delete_all [] fs = fs
delete_all (p ∷ ps) fs = delete_all ps (put fs p absent)

-- capW.Path(), once CreateRunCapture has made the file.
unfoldable pub run_of : RunCapture → Option Bytes
run_of (created path) = some path
run_of (failed path) = none
run_of all_taken = none

unfoldable pub capture_made : World → Disk → Disk
capture_made w d = record { files = (w.make d.files).0; run = run_of (w.make d.files).1 }

-- The closed file of the run.
unfoldable pub capture_written : Bytes → Option Bytes → Files → Files
capture_written content none fs = fs
capture_written content (some run) fs = put fs run (file content)

unfoldable pub pin_all : List Bytes → Files → Files
pin_all [] fs = fs
pin_all (p ∷ ps) fs = pin_all ps (put fs p other)

-- Close of the loader.
unfoldable pub unpin : World → Files → Files
unpin w fs =
    let unpinned = delete_all w.pins fs in
    if w.owns_pin_dir then put unpinned w.pin_dir absent else unpinned

-- NewSocketServer: the stale socket is removed, the new one made, and the keylog opened.
unfoldable pub serve : World → Files → Files
serve w fs =
    let listening = put (with_dirs w.server_dirs fs) w.socket_path other in
    if is_absent (listening w.keylog_path) then put listening w.keylog_path (file []) else listening

unfoldable pub act : World → Effect → Disk → Disk
act w (opened capture) d = capture_made w d
act w capture_failed d = capture_made w d
act w (closed capture) d = record d { files = capture_written w.captured d.run d.files }
act w (opened loader) d = record d { files = pin_all w.pins (with_dirs w.load_dirs d.files) }
act w load_failed d = record d { files = pin_all w.pins_left (with_dirs w.load_dirs d.files) }
act w (closed loader) d = record d { files = unpin w d.files }
act w (opened keylog_server) d = record d { files = serve w d.files }
act w keylog_failed d = record d {
  files = put (with_dirs w.server_dirs d.files) w.socket_path w.socket_left;
}
act w (closed keylog_server) d = record d {
  files = put (put d.files w.keylog_path (file w.keylogged)) w.socket_path absent;
}
act w age_pass d = record d { files = delete_all w.aged d.files }
act w cleaned_up d = record d { files = clean_up w.retain d.run d.files }
act w keylog_deleted d = record d { files = delete_keylog w.keylog_path d.files }
act w e d = d

unfoldable pub act_all : World → List Effect → Disk → Disk
act_all w [] d = d
act_all w (e ∷ es) d = act_all w es (act w e d)

-- What Start does, and then Close, if Start returned an App.
unfoldable pub session_of : Config → Started → List Effect
session_of cfg (es, none) = es
session_of cfg (es, some a) = es ++ close_effects cfg a

unfoldable pub session : Config → Faults → World → Files → Files
session cfg f w fs =
    (act_all w (session_of cfg (start cfg f)) (record { files = fs; run = none })).files
