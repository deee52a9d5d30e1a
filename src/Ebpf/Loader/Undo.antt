-- ===== src/Ebpf/Loader/Undo.antt =====
-- What the loader leaves behind: Load, Attach and Close, as Start and App.Close of cmd/app/app.go call
-- them, against the things that they make. What a failed load of the objects leaves pinned is left open.
use go_e_bpf_proxy.Base.{
  ◌≡◌, refl, sym, ap, ◌∙◌, subst, ◌⊎◌, inl, inr, Bool, true, false, not, ◌&&◌, ◌||◌, Option, none,
  some, List, [], ◌∷◌, ◌++◌, arith, if◌then◌else◌, Bool-cases, Option-cases,
}
use go_e_bpf_proxy.Ebpf.Loader.{
  Config, Invalid, validate, Program, connect4, sockops, Effect, memlock_removed, pin_dir_made,
  objects_loaded, objects_closed, pin_dir_removed, link_attached, link_closed, cookie_unpinned,
  tuple_unpinned, Stat, present, absent, is_absent, Loader, load, attach, close_links, close,
}

-- What the loader makes. The pins are those of origdst_by_cookie and origdst_by_tuple.
pub data Thing : Type 0 where
  pin_dir cookie_pin tuple_pin objects : Thing
  link : Program → Thing

abbrev pub World : Type 0
World = Thing → Bool

same_program : Program → Program → Bool
same_program connect4 connect4 = true
same_program sockops sockops = true
same_program p q = false

makes : Effect → Thing → Bool
unfolding same_program
makes pin_dir_made pin_dir = true
makes objects_loaded cookie_pin = true
makes objects_loaded tuple_pin = true
makes objects_loaded objects = true
makes (link_attached p) (link q) = same_program p q
makes e t = false

removes : Effect → Thing → Bool
unfolding same_program
removes pin_dir_removed pin_dir = true
removes cookie_unpinned cookie_pin = true
removes tuple_unpinned tuple_pin = true
removes objects_closed objects = true
removes (link_closed p) (link q) = same_program p q
removes e t = false

-- Before a Load: whether the pin dir is there.
abbrev pub before : Bool → World
before there pin_dir = there
before there t = false

-- What os.Stat says then.
abbrev pub stat_of : Bool → Stat
stat_of there = if there then present else absent

abbrev pub is_valid : Option Invalid → Bool
is_valid none = true
is_valid (some e) = false

module _ (fails : Effect → Bool) where
  -- An effect; if it fails it changes nothing.
  perform : World → Effect → World
  unfolding makes removes
  perform w e t =
      if makes e t then not (fails e) || w t else if removes e t then fails e && w t else w t

  pub after : World → List Effect → World
  unfolding perform
  after w [] = w
  after w (e ∷ es) = after (perform w e) es

  -- Load, then Attach, and Close whether or not Attach succeeds.
  pub life : Config → Stat → List Effect
  life c stat = elim (load fails c stat).1 [
    | none ↦ (load fails c stat).0
    | some l ↦ (load fails c stat).0 ++ ((attach fails l).1 ++ (close (attach fails l).0).1)
  ]

  -- After a Load that succeeded: only what could not be undone is left.
  abbrev pub Undone : Bool → World → Type 0
  Undone there w =
      (w pin_dir ≡ (there || fails pin_dir_removed))
      × (w cookie_pin ≡ fails cookie_unpinned)
      × (w tuple_pin ≡ fails tuple_unpinned)
      × (w objects ≡ fails objects_closed)
      × (w (link connect4) ≡ (not (fails (link_attached connect4)) && fails (link_closed connect4)))
      × (w (link sockops) ≡ (
          not (fails (link_attached connect4))
          && not (fails (link_attached sockops))
          && fails (link_closed sockops)))

  abbrev loaded : Bool → Loader
  loaded there = record { links = []; owns_pin_dir = is_absent (stat_of there) }

  abbrev after_load : Bool → List Effect
  after_load there = (attach fails (loaded there)).1 ++ (close (attach fails (loaded there)).0).1

  abbrev load_effects : List Effect
  load_effects = memlock_removed ∷ pin_dir_made ∷ objects_loaded ∷ []

  abbrev ending : Bool → List Effect
  ending there =
      cookie_unpinned
      ∷ tuple_unpinned
      ∷ objects_closed
      ∷ (if there then [] else pin_dir_removed ∷ [])

  ending_lem :
      (there : Bool)
      → cookie_unpinned
          ∷ tuple_unpinned
          ∷ objects_closed
          ∷ (if is_absent (stat_of there) then pin_dir_removed ∷ [] else [])
        ≡ ending there
  unfolding is_absent
  ending_lem true = refl
  ending_lem false = refl

  -- What follows Load, by what Attach can do.
  data Follows (there : Bool) : List Effect → Type 0 where
    no_link :
        fails (link_attached connect4) ≡ true
        → Follows there (link_attached connect4 ∷ ending there)
    one_link :
        fails (link_attached connect4) ≡ false
        → fails (link_attached sockops) ≡ true
        → Follows there
            (link_attached connect4 ∷ link_attached sockops ∷ link_closed connect4 ∷ ending there)
    both_links :
        fails (link_attached connect4) ≡ false
        → fails (link_attached sockops) ≡ false
        → Follows there (
            link_attached connect4
            ∷ link_attached sockops
            ∷ link_closed connect4
            ∷ link_closed sockops
            ∷ ending there)

  after_load-Follows : (there : Bool) → Follows there (after_load there)
  unfolding attach close close_links
  after_load-Follows there = elim (Bool-cases (fails (link_attached connect4))) [
    | inl f ↦ rw (f, ending_lem there) (no_link f)
    | inr a ↦ elim (Bool-cases (fails (link_attached sockops))) [
      | inl f ↦ rw (a, f, ending_lem there) (one_link a f)
      | inr b ↦ rw (a, b, ending_lem there) (both_links a b)
    ]
  ]

  Follows-Undone :
      (there : Bool) (es : List Effect)
      → fails pin_dir_made ≡ false
      → fails objects_loaded ≡ false
      → Follows there es
      → Undone there (after (before there) (load_effects ++ es))
  unfolding after perform makes removes same_program
  Follows-Undone true es d o (no_link f) =
      (ground arith, ground arith, ground arith, ground arith, ground arith, ground arith)
  Follows-Undone false es d o (no_link f) =
      (ground arith, ground arith, ground arith, ground arith, ground arith, ground arith)
  Follows-Undone true es d o (one_link a f) =
      (ground arith, ground arith, ground arith, ground arith, ground arith, ground arith)
  Follows-Undone false es d o (one_link a f) =
      (ground arith, ground arith, ground arith, ground arith, ground arith, ground arith)
  Follows-Undone true es d o (both_links a b) =
      (ground arith, ground arith, ground arith, ground arith, ground arith, ground arith)
  Follows-Undone false es d o (both_links a b) =
      (ground arith, ground arith, ground arith, ground arith, ground arith, ground arith)

  failed_pin_dir :
      (there : Bool) (c : Config) (es : List Effect)
      → life c (stat_of there) ≡ es
      → after (before there) es pin_dir ≡ (
          there
          || (is_valid (validate c) && not (fails memlock_removed) && not (fails pin_dir_made)))
      → after (before there) (life c (stat_of there)) pin_dir ≡ (
          there
          || (is_valid (validate c) && not (fails memlock_removed) && not (fails pin_dir_made)))
  failed_pin_dir there c es all h = ap (λ es. after (before there) es pin_dir) all ∙ h

  -- A whole life of the loader: if Load succeeds, each thing that it or Attach made is undone unless
  -- the one call that undoes it fails, and a pin dir that was there before stays. If Load fails on
  -- the objects, the pin dir that it made stays, and otherwise there is one only if there was.
  pub life-Undone :
      (c : Config) (there : Bool)
      → ((l : Loader) × ((load fails c (stat_of there)).1 ≡ some l)
          × Undone there (after (before there) (life c (stat_of there))))
        ⊎ (((load fails c (stat_of there)).1 ≡ none)
            × (after (before there) (life c (stat_of there)) pin_dir ≡ (
                there
                || (is_valid (validate c)
                    && not (fails memlock_removed)
                    && not (fails pin_dir_made)))))
  unfolding after perform makes removes same_program life load attach close close_links is_absent
  life-Undone c there = elim (Option-cases (validate c)) [
    | inr (e, bad) ↦ inr (ground arith, failed_pin_dir there c [] (ground arith) (ground arith))
    | inl good ↦ elim (Bool-cases (fails memlock_removed)) [
      | inl f ↦ inr (
        ground arith,
        failed_pin_dir there c (memlock_removed ∷ []) (ground arith) (ground arith),
      )
      | inr m ↦ elim (Bool-cases (fails pin_dir_made)) [
        | inl f ↦ inr (
          ground arith,
          failed_pin_dir there c (memlock_removed ∷ pin_dir_made ∷ []) (ground arith)
              (ground arith),
        )
        | inr d ↦ elim (Bool-cases (fails objects_loaded)) [
          | inl f ↦
              inr (ground arith, failed_pin_dir there c load_effects (ground arith) (ground arith))
          | inr o ↦
              let all : life c (stat_of there) ≡ load_effects ++ after_load there = ground arith in
              inl (
                loaded there,
                ground arith,
                subst (Undone there) (sym (ap (after (before there)) all))
                    (Follows-Undone there (after_load there) d o (after_load-Follows there)),
              )
        ]
      ]
    ]
  ]
