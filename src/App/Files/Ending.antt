-- ===== src/App/Files/Ending.antt =====
-- The effects of Start and Close of cmd/app/app.go that reach files: how a session ends.
use Prim.Native.Nat.{ℕ}
use go_e_bpf_proxy.Base.{
  ◌+◌, ◌≤◌, ◌≡◌, refl, sym, ap, ◌∙◌, inl, inr, ◌⊎◌, Bool, true, false, not, ◌&&◌, List, [], ◌∷◌,
  ◌++◌, append_assoc, arith, if_elim, pos, ltb_ℤ,
}
use go_e_bpf_proxy.App.{
  Resource, capture, keylog_server, listener, loader, live, ticker, Effect, opened, closed,
  keylog_deleted, attached, age_pass, capture_refused, capture_failed, load_failed, keylog_failed,
  capture_started, stats_logged, cleaned_up, Config, Faults, App, Started, when, close_effects,
  give_up, start_ticker, start_live, start_keylog, open_capture, start_relay, nothing_up, start,
}
use go_e_bpf_proxy.App.Files.{session_of}

-- CreateRunCapture is called at most once, by Start.
unfoldable pub makes : Effect → ℕ
makes (opened capture) = 1
makes capture_failed = 1
makes e = 0

unfoldable pub makes_all : List Effect → ℕ
makes_all [] = 0
makes_all (e ∷ es) = makes e + makes_all es

pub makes_all-append : (es fs : List Effect) → makes_all (es ++ fs) ≡ makes_all es + makes_all fs
unfolding makes_all
makes_all-append [] fs = omega arith
makes_all-append (e ∷ es) fs = omega (arith, makes_all-append es fs)

makes_all-when : (b : Bool) (e : Effect) → makes e ≡ 0 → makes_all (when b (e ∷ [])) ≡ 0
unfolding makes_all
makes_all-when true e h = omega arith
makes_all-when false e h = refl

makes_all_ticker :
    (b stats : Bool) → makes_all (when b (closed ticker ∷ when stats (stats_logged ∷ []))) ≡ 0
unfolding makes_all makes
makes_all_ticker true true = refl
makes_all_ticker true false = refl
makes_all_ticker false stats = refl

makes-closed : (r : Resource) → makes (closed r) ≡ 0
unfolding makes
makes-closed r = refl

quiet_one : (e : Effect) → makes e ≡ 0 → makes_all (e ∷ []) ≡ 0
unfolding makes_all
quiet_one e h = omega arith

-- Effects that end as Close does, and that make a capture at most so often.
pub record Ending (n : ℕ) (es : List Effect) : Type 0 where
  pub before : List Effect
  pub whole : es ≡ before ++ cleaned_up ∷ keylog_deleted ∷ []
  pub once : makes_all before ≤ n

Ending-behind :
    (es : List Effect) {fs : List Effect} (n m : ℕ)
    → makes_all es + n ≤ m
    → Ending n fs
    → Ending m (es ++ fs)
Ending-behind es n m h end = record {
  before = es ++ end.before;
  whole =
      ap (◌++◌ es) end.whole ∙ sym (append_assoc es end.before (cleaned_up ∷ keylog_deleted ∷ []));
  once = omega (arith, makes_all-append es end.before, end.once);
}

no_effects : makes_all [] ≡ 0
unfolding makes_all
no_effects = refl

closing :
    (b : Bool) (r : Resource) {fs : List Effect}
    → Ending 0 fs
    → Ending 0 (when b (closed r ∷ []) ++ fs)
closing b r end =
    Ending-behind (when b (closed r ∷ [])) 0 0
      (omega (arith, makes_all-when b (closed r) (makes-closed r))) end

close_effects-Ending : (cfg : Config) (a : App) → Ending 0 (close_effects cfg a)
unfolding close_effects
close_effects-Ending cfg a =
    Ending-behind _ 0 0
      (omega (arith, makes_all_ticker a.has_ticker (ltb_ℤ (pos 0) cfg.stats_interval)))
      (closing a.has_live live (
        closing a.has_capture capture (
          closing a.has_keylog keylog_server (
            closing a.has_listener listener (
              closing a.has_loader loader
                (record { before = []; whole = refl; once = omega (arith, no_effects) }))))))

module _ (cfg : Config) (f : Faults) where
  -- A session whose Start goes on from `es`.
  abbrev pub Ends : Started → Type 0
  Ends out = Ending 1 (session_of cfg out)

  give_up-Ends : (es : List Effect) (a : App) → makes_all es ≤ 1 → Ends (give_up cfg es a)
  unfolding give_up session_of
  give_up-Ends es a h = Ending-behind es 0 1 (omega arith) (close_effects-Ending cfg a)

  start_ticker-Ends : (es : List Effect) (a : App) → makes_all es ≤ 1 → Ends (start_ticker es a)
  unfolding start_ticker session_of makes
  start_ticker-Ends es a h =
      Ending-behind (es ++ opened ticker ∷ []) 0 1
        (omega (arith, makes_all-append es (opened ticker ∷ []), quiet_one (opened ticker) refl))
        (close_effects-Ending cfg (record a { has_ticker = true }))

  start_live-Ends : (es : List Effect) (a : App) → makes_all es ≤ 1 → Ends (start_live cfg f es a)
  unfolding start_live makes
  start_live-Ends es a h =
      if_elim Ends (not a.has_capture) (λ _. start_ticker-Ends es a h)
        (λ _.
          if_elim Ends f.live_fails (λ _. give_up-Ends es a h)
            (λ _.
              start_ticker-Ends (es ++ opened live ∷ []) (record a { has_live = true })
                (omega
                  (arith, makes_all-append es (opened live ∷ []), quiet_one (opened live) refl))))

  start_keylog-Ends :
      (es : List Effect) (a : App) → makes_all es ≤ 1 → Ends (start_keylog cfg f es a)
  unfolding start_keylog makes
  start_keylog-Ends es a h =
      if_elim Ends f.keylog_fails
        (λ _.
          give_up-Ends (es ++ keylog_failed ∷ []) a
            (omega (arith, makes_all-append es (keylog_failed ∷ []), quiet_one keylog_failed refl)))
        (λ _.
          start_live-Ends (es ++ opened keylog_server ∷ []) (record a { has_keylog = true })
            (omega (
              arith,
              makes_all-append es (opened keylog_server ∷ []),
              quiet_one (opened keylog_server) refl,
            )))

  open_capture-Ends :
      (es : List Effect) (a : App) → makes_all es ≡ 0 → Ends (open_capture cfg f es a)
  unfolding open_capture makes makes_all
  open_capture-Ends es a h =
      if_elim Ends f.target_refused (λ _. give_up-Ends es a (omega arith))
        (λ _.
          if_elim Ends f.room_fails
            (λ _.
              give_up-Ends (es ++ age_pass ∷ []) a
                (omega (arith, makes_all-append es (age_pass ∷ []))))
            (λ _.
              if_elim Ends (ltb_ℤ (pos 0) cfg.max_bytes && f.room_short)
                (λ _.
                  start_keylog-Ends (es ++ age_pass ∷ capture_refused ∷ []) a
                    (omega (arith, makes_all-append es (age_pass ∷ capture_refused ∷ []))))
                (λ _.
                  if_elim Ends f.create_fails
                    (λ _.
                      give_up-Ends (es ++ age_pass ∷ capture_failed ∷ []) a
                        (omega (arith, makes_all-append es (age_pass ∷ capture_failed ∷ []))))
                    (λ _.
                      start_keylog-Ends (es ++ age_pass ∷ opened capture ∷ capture_started ∷ [])
                        (record a { has_capture = true })
                        (omega (
                          arith,
                          makes_all-append es (age_pass ∷ opened capture ∷ capture_started ∷ []),
                        ))))))

  start_relay-Ends : (es : List Effect) (a : App) → makes_all es ≡ 0 → Ends (start_relay cfg f es a)
  unfolding start_relay makes makes_all
  start_relay-Ends es a h =
      if_elim Ends f.attach_fails (λ _. give_up-Ends es a (omega arith))
        (λ _.
          if_elim Ends f.listen_fails
            (λ _.
              give_up-Ends (es ++ attached ∷ []) a
                (omega (arith, makes_all-append es (attached ∷ []))))
            (λ _.
              open_capture-Ends (es ++ attached ∷ opened listener ∷ [])
                (record a { has_listener = true })
                (omega (arith, makes_all-append es (attached ∷ opened listener ∷ [])))))

  -- Once the keylog may be on tmpfs, a session deletes it at its end, or does no more than that but
  -- for a Load that fails.
  abbrev pub Session : Started → Type 0
  Session out =
      (session_of cfg out ≡ keylog_deleted ∷ [])
      ⊎ (session_of cfg out ≡ keylog_deleted ∷ load_failed ∷ [])
      ⊎ Ends out

  pub start-Ends : f.not_tmpfs ≡ false → Session (start cfg f)
  unfolding start session_of makes makes_all
  start-Ends on =
      if_elim Session f.not_tmpfs (λ h. absurd (cc))
        (λ _.
          if_elim Session f.delete_fails (λ _. inl refl)
            (λ _.
              if_elim Session f.load_fails (λ _. inr (inl refl))
                (λ _. inr (
                  inr (
                    start_relay-Ends (keylog_deleted ∷ opened loader ∷ [])
                      (record nothing_up { has_loader = true }) refl)))))
