-- ===== src/Capture/Create/Tried.antt =====
-- NewWriter of internal/capture/pcapng.go at one path, once the directories are made.
use go_e_bpf_proxy.Base.{◌≡◌, ◌≢◌, refl, ◌⊎◌, inl, inr, true, false, not, [], Bytes, if_elim}
use go_e_bpf_proxy.FilePath.{dir}
use go_e_bpf_proxy.Capture.RunName.{Created, opened, name_taken, create_failed}
use go_e_bpf_proxy.Capture.Create.{
  Entry, absent, file, Files, put, Answers, is_absent, write_headers, with_dirs, create,
}

-- What NewWriter does at a path.
pub data Tried (ans : Answers) (fs : Files) (path : Bytes) : Files × Created → Type 0 where
  taken : fs path ≢ absent → Tried ans fs path (fs, name_taken)
  untouched : Tried ans fs path (fs, create_failed)
  left_over :
      (rest : Bytes) → fs path ≡ absent → Tried ans fs path (put fs path (file rest), create_failed)
  made_file : fs path ≡ absent → Tried ans fs path (put fs path (file ans.headers), opened)

is_absent_lem : (e : Entry) → not (is_absent e) ≡ false → e ≡ absent
unfolding is_absent
is_absent_lem absent h = refl
is_absent_lem e h = cc

is_absent-not : (e : Entry) → not (is_absent e) ≡ true → e ≢ absent
unfolding is_absent
is_absent-not absent h = cc
is_absent-not (file rest) h = λ e. cc
is_absent-not Entry.other h = λ e. cc

write_headers-Tried :
    (ans : Answers) (fs : Files) (path : Bytes)
    → fs path ≡ absent
    → Tried ans fs path (write_headers ans fs path)
unfolding write_headers
write_headers-Tried ans fs path free =
    if_elim (Tried ans fs path) (not ans.ng_ok) (λ h. left_over [] free)
      (λ h.
        if_elim (Tried ans fs path) (not ans.flush_ok) (λ g. left_over ans.partial free)
          (λ g. made_file free))

-- The directories of a run, once they are made.
abbrev pub IsFixed : Answers → Files → Type 0
IsFixed ans fs = with_dirs ans.dirs_made fs ≡ fs

pub create-Tried :
    (ans : Answers) (fs : Files) (path : Bytes)
    → IsFixed ans fs
    → Tried ans fs path (create ans fs path)
unfolding create
create-Tried ans fs path fixed = rw fixed (
    if_elim (Tried ans fs path) (not (ans.mkdir_ok (dir path))) (λ h. untouched)
      (λ h.
        if_elim (Tried ans fs path) (not (is_absent (fs path)))
          (λ g. taken (is_absent-not (fs path) g))
          (λ g.
            if_elim (Tried ans fs path) (not (ans.open_ok path)) (λ k. untouched)
              (λ k. write_headers-Tried ans fs path (is_absent_lem (fs path) g)))))

pub taken-same :
    (ans : Answers) (fs : Files) (path : Bytes) {out : Files × Created}
    → Tried ans fs path out
    → out.1 ≡ name_taken
    → (out.0 ≡ fs) × (fs path ≢ absent)
taken-same ans fs path (taken there) h = (refl, there)
taken-same ans fs path untouched h = cc
taken-same ans fs path (left_over rest free) h = cc
taken-same ans fs path (made_file free) h = cc

pub made-same :
    (ans : Answers) (fs : Files) (path : Bytes) {out : Files × Created}
    → Tried ans fs path out
    → out.1 ≡ opened
    → (out.0 ≡ put fs path (file ans.headers)) × (fs path ≡ absent)
made-same ans fs path (taken there) h = cc
made-same ans fs path untouched h = cc
made-same ans fs path (left_over rest free) h = cc
made-same ans fs path (made_file free) h = (refl, free)

-- What a NewWriter that fails leaves at the path.
abbrev pub LeftAt : Files → Bytes → Files → Type 0
LeftAt fs path fs1 =
    (fs1 ≡ fs) ⊎ ((rest : Bytes) × (fs path ≡ absent) × (fs1 ≡ put fs path (file rest)))

pub failed-LeftAt :
    (ans : Answers) (fs : Files) (path : Bytes) {out : Files × Created}
    → Tried ans fs path out
    → out.1 ≡ create_failed
    → LeftAt fs path out.0
failed-LeftAt ans fs path (taken there) h = cc
failed-LeftAt ans fs path untouched h = inl refl
failed-LeftAt ans fs path (left_over rest free) h = inr (rest, free, refl)
failed-LeftAt ans fs path (made_file free) h = cc
