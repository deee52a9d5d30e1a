-- ===== src/Capture/Create/Kept.antt =====
-- CreateRunCapture of internal/capture/pcapng.go: what it makes of a file system.
use Prim.Native.Nat.{ℕ}
use go_e_bpf_proxy.Base.{
  zero, suc, ◌+◌, ◌≤◌, ◌<◌, ◌≡◌, ◌≢◌, refl, sym, ap, ◌∙◌, subst, inl, inr, arith, Bytes, codes,
  bytes_eq, bytes_eq_iff, leb, pos, Bool-cases, if◌then◌else◌,
}
use go_e_bpf_proxy.FilePath.{base}
use go_e_bpf_proxy.Capture.RunName.{
  Created, opened, name_taken, create_failed, RunCapture, created, failed, all_taken,
  max_run_suffix, run_base, run_path, create_loop,
}
use go_e_bpf_proxy.Capture.RunName.Lowest.{
  Lowest, Taken, at_free, at_error, nowhere, Created-cases, create_loop-Lowest,
}
use go_e_bpf_proxy.Capture.Create.{
  split_template, Entry, absent, file, Files, put, Answers, with_dirs, create, run_loop,
  run_capture,
}
use go_e_bpf_proxy.Capture.Create.Dirs.{with_dirs-twice, with_dirs-there}
use go_e_bpf_proxy.Capture.Create.Tried.{
  IsFixed, create-Tried, taken-same, made-same, LeftAt, failed-LeftAt,
}
use go_e_bpf_proxy.Capture.Create.Template.{IsRunPath, run_path-IsRunPath}

-- How CreateRunCapture ends, and the file system it leaves. `paths` are the paths for the suffixes.
pub data Made (paths : ℕ → Bytes) (headers : Bytes) (fs : Files) : Files × RunCapture → Type 0 where
  made :
      (n : ℕ) {fs1 : Files}
      → n ≤ max_run_suffix
      → ((j : ℕ) → j < n → fs (paths j) ≢ absent)
      → fs (paths n) ≡ absent
      → fs1 ≡ put fs (paths n) (file headers)
      → Made paths headers fs (fs1, created (paths n))
  unmade :
      (n : ℕ) {fs1 : Files}
      → n ≤ max_run_suffix
      → ((j : ℕ) → j < n → fs (paths j) ≢ absent)
      → LeftAt fs (paths n) fs1
      → Made paths headers fs (fs1, failed (paths n))
  full :
      ((j : ℕ) → j ≤ max_run_suffix → fs (paths j) ≢ absent) → Made paths headers fs (fs, all_taken)

module _ (ans : Answers) (fs : Files) (fixed : IsFixed ans fs) where
  tries : Bytes → Created
  tries path = (create ans fs path).1

  -- The file system once CreateRunCapture has ended with an outcome.
  after : RunCapture → Files
  after (created path) = (create ans fs path).0
  after (failed path) = (create ans fs path).0
  after all_taken = fs

  run_loop_lem :
      (fuel n : ℕ) (base ext : Bytes)
      → let c = create_loop fuel base ext tries n in run_loop fuel ans base ext fs n ≡ (after c, c)
  unfolding run_loop create_loop after tries
  run_loop_lem zero n base ext = refl
  run_loop_lem (suc fuel) n base ext = elim (Created-cases (tries (run_path base ext n))) [
    | inl e ↦ rw (e, create_loop, run_loop) refl
    | inr (inr e) ↦ rw (e, create_loop, run_loop) refl
    | inr (inl e) ↦
        let (same, there) =
          taken-same ans fs (run_path base ext n) (create-Tried ans fs (run_path base ext n) fixed)
            e in
        elim (Bool-cases (leb (n + 1) max_run_suffix)) [
          | inl more ↦
              rw (e, more, create_loop, run_loop) (rw same (run_loop_lem fuel (n + 1) base ext))
          | inr last ↦ rw (e, last, create_loop, run_loop) (rw same refl)
        ]
  ]

  there_already :
      (base ext : Bytes) (n j : ℕ)
      → Taken tries base ext 0 n
      → j < n
      → fs (run_path base ext j) ≢ absent
  unfolding tries
  there_already base ext n j before h =
      (taken-same ans fs (run_path base ext j) (create-Tried ans fs (run_path base ext j) fixed)
        (before j (omega arith) h)).1

  Lowest-Made :
      (base ext : Bytes) {c : RunCapture}
      → Lowest base ext tries 0 c
      → Made (run_path base ext) ans.headers fs (after c, c)
  unfolding tries after
  Lowest-Made base ext (at_free n lo hi before h) =
      let (same, free) =
        made-same ans fs (run_path base ext n) (create-Tried ans fs (run_path base ext n) fixed)
          h in
      made n hi (λ j k. there_already base ext n j before k) free same
  Lowest-Made base ext (at_error n lo hi before h) =
      unmade n hi (λ j k. there_already base ext n j before k)
        (failed-LeftAt ans fs (run_path base ext n)
          (create-Tried ans fs (run_path base ext n) fixed) h)
  Lowest-Made base ext (nowhere before) =
      full (λ j k. there_already base ext (max_run_suffix + 1) j before (omega arith))

  fixed-Made :
      (base ext : Bytes)
      → Made (run_path base ext) ans.headers fs (run_loop (max_run_suffix + 1) ans base ext fs 0)
  fixed-Made base ext =
      subst (Made (run_path base ext) ans.headers fs)
        (sym (run_loop_lem (max_run_suffix + 1) 0 base ext))
        (Lowest-Made base ext
          (create_loop-Lowest base ext tries (max_run_suffix + 1) 0 (omega arith) (omega arith)))

-- The path for a suffix.
abbrev pub paths_of : Bytes → ℕ → ℕ → Bytes
paths_of template epoch n =
    run_path (run_base (split_template template).dir (split_template template).stem (pos epoch))
      (split_template template).ext n

-- NewWriter makes the directories first.
create-with_dirs :
    (ans : Answers) (fs : Files) (path : Bytes)
    → create ans (with_dirs ans.dirs_made fs) path ≡ create ans fs path
unfolding create
create-with_dirs ans fs path = rw (with_dirs-twice ans.dirs_made fs) refl

-- A turn of the loop, by what NewWriter did.
turn : ℕ → Answers → Bytes → Bytes → ℕ → Files × Created → Files × RunCapture
turn fuel ans stem ext n out = elim out.1 [
  | opened ↦ (out.0, created (run_path stem ext n))
  | create_failed ↦ (out.0, failed (run_path stem ext n))
  | name_taken ↦
      if leb (n + 1) max_run_suffix
      then run_loop fuel ans stem ext out.0 (n + 1)
      else (out.0, all_taken)
]

run_loop-turn :
    (fuel : ℕ) (ans : Answers) (stem ext : Bytes) (fs : Files) (n : ℕ)
    → run_loop (suc fuel) ans stem ext fs n
      ≡ turn fuel ans stem ext n (create ans fs (run_path stem ext n))
unfolding run_loop turn
run_loop-turn fuel ans stem ext fs n = refl

run_loop-with_dirs :
    (fuel : ℕ) (ans : Answers) (stem ext : Bytes) (fs : Files) (n : ℕ)
    → run_loop (suc fuel) ans stem ext (with_dirs ans.dirs_made fs) n
      ≡ run_loop (suc fuel) ans stem ext fs n
run_loop-with_dirs fuel ans stem ext fs n =
    run_loop-turn fuel ans stem ext (with_dirs ans.dirs_made fs) n
    ∙ ap (turn fuel ans stem ext n) (create-with_dirs ans fs (run_path stem ext n))
    ∙ sym (run_loop-turn fuel ans stem ext fs n)

run_loop-Made :
    (ans : Answers) (fs : Files) (base ext : Bytes)
    → Made
        (run_path base ext)
        ans.headers
        (with_dirs ans.dirs_made fs)
        (run_loop (max_run_suffix + 1) ans base ext fs 0)
run_loop-Made ans fs base ext =
    subst (Made (run_path base ext) ans.headers (with_dirs ans.dirs_made fs))
      (run_loop-with_dirs max_run_suffix ans base ext fs 0)
      (fixed-Made ans (with_dirs ans.dirs_made fs) (with_dirs-twice ans.dirs_made fs) base ext)

-- CreateRunCapture, for a template that is not slashes alone and a time from 1970 on, whatever the
-- file system holds and wherever the operating system fails. Apart from the directories that MkdirAll
-- makes where nothing stands: it creates the file of the lowest suffix whose path is free, holding the
-- headers; or it fails at a path below which all are taken, leaving the file system as it was or with
-- one more file there; or all 1000 paths are taken and it changes nothing. Every path is one of the
-- template's directory, under a name without a slash that Retention, for the same template, takes for
-- a capture.
pub run_capture-Made :
    (ans : Answers) (template : Bytes) (epoch : ℕ) (fs : Files)
    → base template ≢ codes "/"
    → Made
        (paths_of template epoch)
        ans.headers
        (with_dirs ans.dirs_made fs)
        (run_capture ans template (pos epoch) fs)
      × ((n : ℕ) → IsRunPath template (paths_of template epoch n))
unfolding run_capture
run_capture-Made ans template epoch fs h = (
  run_loop-Made ans fs
      (run_base (split_template template).dir (split_template template).stem (pos epoch))
      (split_template template).ext,
  λ n. run_path-IsRunPath template epoch n h,
)

put-there :
    (fs : Files) (path p : Bytes) (e : Entry)
    → fs p ≢ absent
    → fs path ≡ absent
    → put fs path e p ≡ fs p
unfolding put
put-there fs path p e there free = elim (Bool-cases (bytes_eq p path)) [
  | inl same ↦ absurd (there (ap fs ((bytes_eq_iff p path).0 same) ∙ free))
  | inr other ↦ rw other refl
]

Made-keeps :
    (paths : ℕ → Bytes) (headers : Bytes) (fs : Files) {out : Files × RunCapture} (p : Bytes)
    → Made paths headers fs out
    → fs p ≢ absent
    → out.0 p ≡ fs p
Made-keeps paths headers fs p (made n hi before free same) there =
    ap (λ f. f p) same ∙ put-there fs (paths n) p (file headers) there free
Made-keeps paths headers fs p (unmade n hi before (inl same)) there = ap (λ f. f p) same
Made-keeps paths headers fs p (unmade n hi before (inr (rest, free, same))) there =
    ap (λ f. f p) same ∙ put-there fs (paths n) p (file rest) there free
Made-keeps paths headers fs p (full before) there = refl

-- CreateRunCapture leaves every entry that was there as it was, on every outcome.
pub run_capture-keeps :
    (ans : Answers) (template : Bytes) (epoch : ℕ) (fs : Files) (p : Bytes)
    → fs p ≢ absent
    → (run_capture ans template (pos epoch) fs).0 p ≡ fs p
unfolding run_capture
run_capture-keeps ans template epoch fs p there =
    let same = with_dirs-there ans.dirs_made fs p there in
    Made-keeps (paths_of template epoch) ans.headers (with_dirs ans.dirs_made fs) p
      (run_loop-Made ans fs
        (run_base (split_template template).dir (split_template template).stem (pos epoch))
        (split_template template).ext)
      (λ gone. there (sym same ∙ gone))
    ∙ same
