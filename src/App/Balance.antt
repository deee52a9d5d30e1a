-- ===== src/App/Balance.antt =====
-- What Start and Close open and close, stage by stage.
use go_e_bpf_proxy.Base.{
  ◌+◌, ◌≡◌, refl, true, false, not, ◌&&◌, List, [], ◌∷◌, ◌++◌, arith, if_elim, pos, ltb_ℤ,
}
use go_e_bpf_proxy.App.{
  Resource, loader, listener, capture, keylog_server, live, ticker, Effect, opened, keylog_deleted,
  attached, age_pass, capture_refused, capture_failed, capture_started, keylog_failed, Config,
  Faults, App, close, start_ticker, start_live, start_keylog, open_capture, start_relay, nothing_up,
  start,
}
use go_e_bpf_proxy.App.Counts.{
  opens, closes, has, closes-close_effects, opens-close_effects, Owns, Balanced, give_up-Balanced,
  Owns-append,
}

module _ (a : App) where
  gains_ticker :
      (r : Resource)
      → a.has_ticker ≡ false
      → has a r + opens r (opened ticker ∷ [])
        ≡ closes r (opened ticker ∷ []) + has (record a { has_ticker = true }) r
  gains_ticker ticker e = rw e refl
  gains_ticker loader e = omega arith
  gains_ticker listener e = omega arith
  gains_ticker capture e = omega arith
  gains_ticker keylog_server e = omega arith
  gains_ticker live e = omega arith

  gains_live :
      (r : Resource)
      → a.has_live ≡ false
      → has a r + opens r (opened live ∷ [])
        ≡ closes r (opened live ∷ []) + has (record a { has_live = true }) r
  gains_live live e = rw e refl
  gains_live loader e = omega arith
  gains_live listener e = omega arith
  gains_live capture e = omega arith
  gains_live keylog_server e = omega arith
  gains_live ticker e = omega arith

  gains_keylog :
      (r : Resource)
      → a.has_keylog ≡ false
      → has a r + opens r (opened keylog_server ∷ [])
        ≡ closes r (opened keylog_server ∷ []) + has (record a { has_keylog = true }) r
  gains_keylog keylog_server e = rw e refl
  gains_keylog loader e = omega arith
  gains_keylog listener e = omega arith
  gains_keylog capture e = omega arith
  gains_keylog live e = omega arith
  gains_keylog ticker e = omega arith

  gains_capture :
      (r : Resource)
      → a.has_capture ≡ false
      → has a r + opens r (age_pass ∷ opened capture ∷ capture_started ∷ [])
        ≡ closes r (age_pass ∷ opened capture ∷ capture_started ∷ [])
          + has (record a { has_capture = true }) r
  gains_capture capture e = rw e refl
  gains_capture loader e = omega arith
  gains_capture listener e = omega arith
  gains_capture keylog_server e = omega arith
  gains_capture live e = omega arith
  gains_capture ticker e = omega arith

  gains_listener :
      (r : Resource)
      → a.has_listener ≡ false
      → has a r + opens r (attached ∷ opened listener ∷ [])
        ≡ closes r (attached ∷ opened listener ∷ []) + has (record a { has_listener = true }) r
  gains_listener listener e = rw e refl
  gains_listener loader e = omega arith
  gains_listener capture e = omega arith
  gains_listener keylog_server e = omega arith
  gains_listener live e = omega arith
  gains_listener ticker e = omega arith

module _ (cfg : Config) (f : Faults) where
  start_ticker-Balanced :
      (es : List Effect) (a : App) → a.has_ticker ≡ false → Owns a es → Balanced (start_ticker es a)
  unfolding start_ticker
  start_ticker-Balanced es a t o =
      Owns-append es (opened ticker ∷ []) a (record a { has_ticker = true })
        (λ r. gains_ticker a r t) o

  start_live-Balanced :
      (es : List Effect) (a : App)
      → a.has_ticker ≡ false
      → a.has_live ≡ false
      → Owns a es
      → Balanced (start_live cfg f es a)
  unfolding start_live
  start_live-Balanced es a t l o =
      if_elim Balanced (not a.has_capture) (λ _. start_ticker-Balanced es a t o)
        (λ _.
          if_elim Balanced f.live_fails (λ _. give_up-Balanced cfg es a o)
            (λ _.
              start_ticker-Balanced (es ++ opened live ∷ []) (record a { has_live = true }) t
                (Owns-append es (opened live ∷ []) a (record a { has_live = true })
                  (λ r. gains_live a r l) o)))

  -- Effects that open and close nothing.
  aside :
      (es fs : List Effect) (a : App)
      → ((r : Resource) → (opens r fs ≡ 0) × (closes r fs ≡ 0))
      → Owns a es
      → Owns a (es ++ fs)
  aside es fs a none_of o = Owns-append es fs a a (λ r. omega (arith, none_of r)) o

  start_keylog-Balanced :
      (es : List Effect) (a : App)
      → a.has_ticker ≡ false
      → a.has_live ≡ false
      → a.has_keylog ≡ false
      → Owns a es
      → Balanced (start_keylog cfg f es a)
  unfolding start_keylog
  start_keylog-Balanced es a t l k o =
      if_elim Balanced f.keylog_fails
        (λ _.
          give_up-Balanced cfg (es ++ keylog_failed ∷ []) a
            (aside es (keylog_failed ∷ []) a (λ r. (refl, refl)) o))
        (λ _.
          start_live-Balanced (es ++ opened keylog_server ∷ []) (record a { has_keylog = true }) t l
            (Owns-append es (opened keylog_server ∷ []) a (record a { has_keylog = true })
              (λ r. gains_keylog a r k) o))

  open_capture-Balanced :
      (es : List Effect) (a : App)
      → a.has_ticker ≡ false
      → a.has_live ≡ false
      → a.has_keylog ≡ false
      → a.has_capture ≡ false
      → Owns a es
      → Balanced (open_capture cfg f es a)
  unfolding open_capture
  open_capture-Balanced es a t l k c o =
      let passed = aside es (age_pass ∷ []) a (λ r. (refl, refl)) o in
      if_elim Balanced f.target_refused (λ _. give_up-Balanced cfg es a o)
        (λ _.
          if_elim Balanced f.room_fails (λ _. give_up-Balanced cfg (es ++ age_pass ∷ []) a passed)
            (λ _.
              if_elim Balanced (ltb_ℤ (pos 0) cfg.max_bytes && f.room_short)
                (λ _.
                  start_keylog-Balanced (es ++ age_pass ∷ capture_refused ∷ []) a t l k
                    (aside es (age_pass ∷ capture_refused ∷ []) a (λ r. (refl, refl)) o))
                (λ _.
                  if_elim Balanced f.create_fails
                    (λ _.
                      give_up-Balanced cfg (es ++ age_pass ∷ capture_failed ∷ []) a
                        (aside es (age_pass ∷ capture_failed ∷ []) a (λ r. (refl, refl)) o))
                    (λ _.
                      start_keylog-Balanced (es ++ age_pass ∷ opened capture ∷ capture_started ∷ [])
                        (record a { has_capture = true }) t l k
                        (Owns-append es (age_pass ∷ opened capture ∷ capture_started ∷ []) a
                          (record a { has_capture = true }) (λ r. gains_capture a r c) o)))))

  start_relay-Balanced :
      (es : List Effect) (a : App)
      → a.has_ticker ≡ false
      → a.has_live ≡ false
      → a.has_keylog ≡ false
      → a.has_capture ≡ false
      → a.has_listener ≡ false
      → Owns a es
      → Balanced (start_relay cfg f es a)
  unfolding start_relay
  start_relay-Balanced es a t l k c n o =
      if_elim Balanced f.attach_fails (λ _. give_up-Balanced cfg es a o)
        (λ _.
          if_elim Balanced f.listen_fails
            (λ _.
              give_up-Balanced cfg (es ++ attached ∷ []) a
                (aside es (attached ∷ []) a (λ r. (refl, refl)) o))
            (λ _.
              open_capture-Balanced (es ++ attached ∷ opened listener ∷ [])
                (record a { has_listener = true }) t l k c
                (Owns-append es (attached ∷ opened listener ∷ []) a
                  (record a { has_listener = true }) (λ r. gains_listener a r n) o)))

-- Start leaves no resource open: whatever fails, a Start that returns an error has closed every loader,
-- listener, capture, keylog server, live capture and ticker that a call in it returned, as often as it
-- was returned, and one that returns an App has left open what the App refers to. Close then closes
-- that, each once, whatever fails in it. What a call that fails leaves on the disk is no resource.
pub start-Balanced :
    (cfg : Config) (f : Faults)
    → Balanced (start cfg f)
      × ((a : App) (r : Resource)
          → (closes r (close cfg f a).1 ≡ has a r) × (opens r (close cfg f a).1 ≡ 0))
unfolding start close
start-Balanced cfg f = (
  if_elim Balanced f.not_tmpfs (λ _ r. refl)
      (λ _.
        if_elim Balanced f.delete_fails (λ _ r. refl)
          (λ _.
            if_elim Balanced f.load_fails (λ _ r. refl)
              (λ _.
                start_relay-Balanced cfg f (keylog_deleted ∷ opened loader ∷ [])
                  (record nothing_up { has_loader = true }) refl refl refl refl refl first))),
  λ a r. (closes-close_effects cfg a r, opens-close_effects cfg a r),
)
  where
    first : Owns (record nothing_up { has_loader = true }) (keylog_deleted ∷ opened loader ∷ [])
    first loader = refl
    first listener = refl
    first capture = refl
    first keylog_server = refl
    first live = refl
    first ticker = refl
