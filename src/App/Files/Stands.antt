-- ===== src/App/Files/Stands.antt =====
-- Where a path stands in a session of cmd/app/app.go, effect by effect.
use Prim.Native.Nat.{ℕ}
use go_e_bpf_proxy.Base.{
  ◌≤◌, ◌≡◌, ◌≢◌, refl, sym, ap, ◌∙◌, subst, inl, inr, ◌⊎◌, Bool, true, false, Option, none, some,
  List, [], ◌∷◌, Bytes, arith, In, here, there, bytes_eq, bytes_eq_iff, Bool-cases, if_elim,
}
use go_e_bpf_proxy.Capture.RunName.{RunCapture, created, failed}
use go_e_bpf_proxy.Capture.Create.{Entry, absent, file, Files, put, is_absent, with_dirs}
use go_e_bpf_proxy.Capture.Create.Dirs.{with_dirs-other}
use go_e_bpf_proxy.Capture.Create.Kept.{Made, made, unmade, full}
use go_e_bpf_proxy.App.{
  loader, capture, keylog_server, load_failed, keylog_failed, Effect, opened, closed,
  keylog_deleted, age_pass, capture_failed, cleaned_up,
}
use go_e_bpf_proxy.App.Files.{
  World, Disk, delete_keylog, clean_up, delete_all, pin_all, unpin, serve, run_of, capture_made,
  capture_written, act, act_all,
}
use go_e_bpf_proxy.App.Files.Ending.{makes, makes_all}

pub put_same : (fs : Files) (p : Bytes) (e : Entry) → put fs p e p ≡ e
unfolding put
put_same fs p e = let same = (bytes_eq_iff p p).1 refl in rw same refl

put_other : (fs : Files) (q p : Bytes) (e : Entry) → p ≢ q → put fs q e p ≡ fs p
unfolding put
put_other fs q p e ne = elim (Bool-cases (bytes_eq p q)) [
  | inl same ↦ absurd (ne ((bytes_eq_iff p q).0 same))
  | inr other ↦ rw other refl
]

-- A path that CreateRunCapture has made, or at which it has failed.
abbrev pub Outcome : World → (Bytes → RunCapture) → Bytes → Type 0
Outcome w how p = (fs : Files) × ((w.make fs).1 ≡ how p)

-- Where a path other than the keylog's stands, after some of a session.
pub data Stands (w : World) (fs : Files) (p : Bytes) (d : Disk) : Type 0 where
  same : d.files p ≡ fs p → d.run ≢ some p → Stands w fs p d
  at_run : fs p ≡ absent → d.run ≡ some p → Outcome w created p → Stands w fs p d
  left : fs p ≡ absent → d.run ≢ some p → Outcome w failed p → Stands w fs p d

-- Before CreateRunCapture.
abbrev pub Early : Files → Bytes → Disk → Type 0
Early fs p d = (d.files p ≡ fs p) × (d.run ≡ none)

some_injective {ℓ} : {A : Type ℓ} {a b : A} → some a ≡ some b → a ≡ b
some_injective h = cc

bytes_ne : (p q : Bytes) → bytes_eq p q ≡ false → p ≢ q
bytes_ne p q off e = let on = (bytes_eq_iff p q).1 e in cc

pub delete_keylog-other : (k : Bytes) (gs : Files) (p : Bytes) → p ≢ k → delete_keylog k gs p ≡ gs p
unfolding delete_keylog
delete_keylog-other [] gs p ne = refl
delete_keylog-other (c ∷ cs) gs p ne = put_other gs (c ∷ cs) p absent ne

written_other :
    (content : Bytes) (run : Option Bytes) (gs : Files) (p : Bytes)
    → run ≢ some p
    → capture_written content run gs p ≡ gs p
unfolding capture_written
written_other content none gs p off = refl
written_other content (some q) gs p off =
    put_other gs q p (file content) (λ e. off (ap some (sym e)))

pub clean_up-other :
    (retain : Bool) (run : Option Bytes) (gs : Files) (p : Bytes)
    → run ≢ some p
    → clean_up retain run gs p ≡ gs p
unfolding clean_up
clean_up-other retain none gs p off = refl
clean_up-other true (some q) gs p off = refl
clean_up-other false (some q) gs p off = put_other gs q p absent (λ e. off (ap some (sym e)))

-- A path that is no other business of a session: `dirs` are the directories for the capture.
pub record Away (w : World) (dirs : List Bytes) (p : Bytes) : Type 0 where
  pub off_keylog : p ≢ w.keylog_path
  pub off_socket : p ≢ w.socket_path
  pub off_pin_dir : p ≢ w.pin_dir
  pub young : In p w.aged → ⊥
  pub no_dir : In p dirs → ⊥
  pub no_load_dir : In p w.load_dirs → ⊥
  pub no_server_dir : In p w.server_dirs → ⊥
  pub no_pin : In p w.pins → ⊥
  pub no_pin_left : In p w.pins_left → ⊥

delete_all-other :
    (ps : List Bytes) (gs : Files) (p : Bytes) → (In p ps → ⊥) → delete_all ps gs p ≡ gs p
unfolding delete_all
delete_all-other [] gs p h = refl
delete_all-other (q ∷ ps) gs p h =
    delete_all-other ps (put gs q absent) p (λ m. h (there m))
    ∙ put_other gs q p absent (λ e. h (subst (λ x. In p (x ∷ ps)) e here))

pub pin_all-other :
    (ps : List Bytes) (gs : Files) (p : Bytes) → (In p ps → ⊥) → pin_all ps gs p ≡ gs p
unfolding pin_all
pin_all-other [] gs p h = refl
pin_all-other (q ∷ ps) gs p h =
    pin_all-other ps (put gs q Entry.other) p (λ m. h (there m))
    ∙ put_other gs q p Entry.other (λ e. h (subst (λ x. In p (x ∷ ps)) e here))

unpin-other :
    (w : World) (gs : Files) (p : Bytes) → p ≢ w.pin_dir → (In p w.pins → ⊥) → unpin w gs p ≡ gs p
unfolding unpin
unpin-other w gs p off_dir off =
    if_elim (λ (g : Files). g p ≡ gs p) w.owns_pin_dir
      (λ _.
        put_other (delete_all w.pins gs) w.pin_dir p absent off_dir
        ∙ delete_all-other w.pins gs p off)
      (λ _. delete_all-other w.pins gs p off)

serve-other :
    (w : World) (gs : Files) (p : Bytes)
    → p ≢ w.socket_path
    → p ≢ w.keylog_path
    → (In p w.server_dirs → ⊥)
    → serve w gs p ≡ gs p
unfolding serve
serve-other w gs p off_socket off_keylog off =
    let listening = put (with_dirs w.server_dirs gs) w.socket_path Entry.other in
    let same : listening p ≡ gs p =
      put_other (with_dirs w.server_dirs gs) w.socket_path p Entry.other off_socket
      ∙ with_dirs-other w.server_dirs gs p off in
    if_elim (λ (g : Files). g p ≡ gs p) (is_absent (listening w.keylog_path))
      (λ _. put_other listening w.keylog_path p (file []) off_keylog ∙ same) (λ _. same)

module _ (w : World) (paths : ℕ → Bytes) (headers : Bytes) (dirs : List Bytes)
    (making : (fs : Files) → Made paths headers (with_dirs dirs fs) (w.make fs)) (fs : Files)
    (p : Bytes) (away : Away w dirs p) where
  made_out :
      (before gs : Files) {out : Files × RunCapture}
      → w.make before ≡ out
      → Made paths headers gs out
      → gs p ≡ fs p
      → Stands w fs p (record { files = out.0; run = run_of out.1 })
  unfolding run_of
  made_out start gs e (made n hi before free eq) now = elim (Bool-cases (bytes_eq p (paths n))) [
    | inl on ↦
        let path = (bytes_eq_iff p (paths n)).0 on in
        at_run (sym now ∙ ap gs path ∙ free) (ap some (sym path))
          (start, ap (λ o. o.1) e ∙ ap created (sym path))
    | inr off ↦
        let ne = bytes_ne p (paths n) off in
        same (ap (λ f. f p) eq ∙ put_other gs (paths n) p (file headers) ne ∙ now)
          (λ k. ne (sym (some_injective k)))
  ]
  made_out start gs e (unmade n hi before (inl eq)) now = same (ap (λ f. f p) eq ∙ now) (λ k. cc)
  made_out start gs e (unmade n hi before (inr (rest, free, eq))) now =
      elim (Bool-cases (bytes_eq p (paths n))) [
        | inl on ↦
            let path = (bytes_eq_iff p (paths n)).0 on in
            left (sym now ∙ ap gs path ∙ free) (λ k. cc)
              (start, ap (λ o. o.1) e ∙ ap failed (sym path))
        | inr off ↦
            same
              (ap (λ f. f p) eq
                ∙ put_other gs (paths n) p (file rest) (bytes_ne p (paths n) off)
                ∙ now)
              (λ k. cc)
      ]
  made_out start gs e (full before) now = same now (λ k. cc)

  -- What an effect that makes no capture leaves alone.
  abbrev Quiet : Disk → Disk → Type 0
  Quiet d d1 = (d1.run ≡ d.run) × (d.run ≢ some p → d1.files p ≡ d.files p)

  act-Quiet : (e : Effect) (d : Disk) → makes e ≡ 0 → Quiet d (act w e d)
  unfolding act makes
  act-Quiet (opened capture) d quiet = absurd (omega arith)
  act-Quiet capture_failed d quiet = absurd (omega arith)
  act-Quiet (closed capture) d quiet = (refl, written_other w.captured d.run d.files p)
  act-Quiet (opened loader) d quiet = (
    refl,
    λ off.
        pin_all-other w.pins (with_dirs w.load_dirs d.files) p away.no_pin
        ∙ with_dirs-other w.load_dirs d.files p away.no_load_dir,
  )
  act-Quiet load_failed d quiet = (
    refl,
    λ off.
        pin_all-other w.pins_left (with_dirs w.load_dirs d.files) p away.no_pin_left
        ∙ with_dirs-other w.load_dirs d.files p away.no_load_dir,
  )
  act-Quiet (closed loader) d quiet =
      (refl, λ off. unpin-other w d.files p away.off_pin_dir away.no_pin)
  act-Quiet (opened keylog_server) d quiet =
      (refl, λ off. serve-other w d.files p away.off_socket away.off_keylog away.no_server_dir)
  act-Quiet keylog_failed d quiet = (
    refl,
    λ off.
        put_other (with_dirs w.server_dirs d.files) w.socket_path p w.socket_left away.off_socket
        ∙ with_dirs-other w.server_dirs d.files p away.no_server_dir,
  )
  act-Quiet (closed keylog_server) d quiet = (
    refl,
    λ off.
        put_other (put d.files w.keylog_path (file w.keylogged)) w.socket_path p absent
          away.off_socket
        ∙ put_other d.files w.keylog_path p (file w.keylogged) away.off_keylog,
  )
  act-Quiet age_pass d quiet = (refl, λ off. delete_all-other w.aged d.files p away.young)
  act-Quiet cleaned_up d quiet = (refl, clean_up-other w.retain d.run d.files p)
  act-Quiet keylog_deleted d quiet =
      (refl, λ off. delete_keylog-other w.keylog_path d.files p away.off_keylog)
  act-Quiet e d quiet = (refl, λ off. refl)

  act-Early : (e : Effect) (d : Disk) → makes e ≡ 0 → Early fs p d → Early fs p (act w e d)
  act-Early e d quiet (now, no_run) =
      let (run, files) = act-Quiet e d quiet in
      (files (λ k. let n = sym no_run ∙ k in cc) ∙ now, run ∙ no_run)

  act-Stands : (e : Effect) (d : Disk) → makes e ≡ 0 → Stands w fs p d → Stands w fs p (act w e d)
  act-Stands e d quiet (same now off) =
      let (run, files) = act-Quiet e d quiet in same (files off ∙ now) (λ k. off (sym run ∙ k))
  act-Stands e d quiet (at_run free on made_it) =
      let (run, files) = act-Quiet e d quiet in at_run free (run ∙ on) made_it
  act-Stands e d quiet (left free off failed_it) =
      let (run, files) = act-Quiet e d quiet in left free (λ k. off (sym run ∙ k)) failed_it

  capture_made-Stands : (d : Disk) → Early fs p d → Stands w fs p (capture_made w d)
  unfolding capture_made
  capture_made-Stands d (now, no_run) =
      made_out d.files (with_dirs dirs d.files) refl (making d.files)
        (with_dirs-other dirs d.files p away.no_dir ∙ now)

  makes-cases :
      (e : Effect) → (makes e ≡ 0) ⊎ ((makes e ≡ 1) × ((d : Disk) → act w e d ≡ capture_made w d))
  unfolding makes act
  makes-cases (opened capture) = inr (refl, λ d. refl)
  makes-cases capture_failed = inr (refl, λ d. refl)
  makes-cases e = inl refl

  act_all-Stands :
      (es : List Effect) (d : Disk)
      → makes_all es ≡ 0
      → Stands w fs p d
      → Stands w fs p (act_all w es d)
  unfolding act_all makes_all
  act_all-Stands [] d quiet st = st
  act_all-Stands (e ∷ es) d quiet st =
      act_all-Stands es (act w e d) (omega arith) (act-Stands e d (omega arith) st)

  pub act_all-Early :
      (es : List Effect) (d : Disk)
      → makes_all es ≤ 1
      → Early fs p d
      → Stands w fs p (act_all w es d)
  unfolding act_all makes_all
  act_all-Early [] d once (now, no_run) = same now (λ k. let n = sym no_run ∙ k in cc)
  act_all-Early (e ∷ es) d once early = elim (makes-cases e) [
    | inl quiet ↦ act_all-Early es (act w e d) (omega arith) (act-Early e d quiet early)
    | inr (one, is_make) ↦
        act_all-Stands es (act w e d) (omega arith)
          (subst (Stands w fs p) (sym (is_make d)) (capture_made-Stands d early))
  ]
