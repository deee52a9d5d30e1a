-- ===== src/Capture/Create/Tests.antt =====
-- A capture directory that holds the capture of the same second.
use Prim.Native.Nat.{ℕ}
use go_e_bpf_proxy.Base.{
  ◌≡◌, ◌≢◌, refl, true, false, some, none, [], ◌∷◌, Bytes, codes, bytes_eq, pos, if◌then◌else◌,
}
use go_e_bpf_proxy.FilePath.{
  base, dir, ext, trim_suffix, trim_slashes, last_part, has_slash, clean, dir_part, render,
  path_below, is_rooted, parts, parts_loop, resolve, clean_part, back,
}
use go_e_bpf_proxy.Capture.Create.{
  split_template, absent, file, Files, Answers, with_dirs, run_capture, mode, world_accessible,
  check_target,
}
use go_e_bpf_proxy.Capture.Create.Template.{IsRunPath}
use go_e_bpf_proxy.Capture.Create.Kept.{Made, paths_of, run_capture-Made, run_capture-keeps}

abbrev template : Bytes
template = codes "/var/dump.pcapng"

abbrev old_path : Bytes
old_path = codes "/var/dump-7.pcapng"

abbrev files : Files
files p = if bytes_eq p old_path then file (1 ∷ []) else absent

-- The disk is full: the headers are not flushed.
abbrev answers : Answers
answers = record {
  dirs_made = codes "/var" ∷ [];
  mkdir_ok = λ path. true;
  open_ok = λ path. true;
  ng_ok = true;
  flush_ok = false;
  headers = 10 ∷ 20 ∷ [];
  partial = 10 ∷ [];
}

split_template_run :
    split_template (codes "/var/x.y.pcapng/")
    ≡ record { dir = codes "/var/x.y.pcapng"; stem = codes "x.y"; ext = codes ".pcapng" }
unfolding split_template base dir ext trim_suffix trim_slashes last_part has_slash clean dir_part
    render path_below is_rooted parts parts_loop resolve clean_part back
split_template_run = refl

base_of_template : base template ≢ codes "/"
unfolding base trim_slashes last_part has_slash
base_of_template e = cc

run_capture-Made_example :
    Made
      (paths_of template 7)
      answers.headers
      (with_dirs answers.dirs_made files)
      (run_capture answers template (pos 7) files)
    × ((n : ℕ) → IsRunPath template (paths_of template 7 n))
run_capture-Made_example = run_capture-Made answers template 7 files base_of_template

old_there : files old_path ≢ absent
old_there e = cc

run_capture-keeps_example : (run_capture answers template (pos 7) files).0 old_path ≡ files old_path
run_capture-keeps_example = run_capture-keeps answers template 7 files old_path old_there

check_target_run :
    (check_target (mode 0o700) ≡ none) × (check_target (mode 0o701) ≡ some world_accessible)
unfolding check_target
check_target_run = (refl, refl)
