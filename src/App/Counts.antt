-- ===== src/App/Counts.antt =====
-- The resources that effects open and close.
use Prim.Native.Nat.{ℕ}
use go_e_bpf_proxy.Base.{
  ◌+◌, ◌≡◌, refl, Bool, true, false, none, some, List, [], ◌∷◌, ◌++◌, arith, if◌then◌else◌,
}
use go_e_bpf_proxy.App.{
  Resource, loader, listener, capture, keylog_server, live, ticker, Effect, opened, closed,
  stats_logged, Config, App, when, close_effects, Started, give_up,
}

abbrev pub same : Resource → Resource → ℕ
same loader loader = 1
same listener listener = 1
same capture capture = 1
same keylog_server keylog_server = 1
same live live = 1
same ticker ticker = 1
same _ _ = 0

-- How often effects open a resource, and close it.
abbrev pub opens : Resource → List Effect → ℕ
opens r [] = 0
opens r (opened s ∷ es) = same r s + opens r es
opens r (_ ∷ es) = opens r es

abbrev pub closes : Resource → List Effect → ℕ
closes r [] = 0
closes r (closed s ∷ es) = same r s + closes r es
closes r (_ ∷ es) = closes r es

abbrev pub one_if : Bool → ℕ
one_if b = if b then 1 else 0

-- Whether the App has a resource.
abbrev pub has : App → Resource → ℕ
has a loader = one_if a.has_loader
has a listener = one_if a.has_listener
has a capture = one_if a.has_capture
has a keylog_server = one_if a.has_keylog
has a live = one_if a.has_live
has a ticker = one_if a.has_ticker

opens-append : (r : Resource) (es fs : List Effect) → opens r (es ++ fs) ≡ opens r es + opens r fs
opens-append r [] fs = omega arith
opens-append r (opened s ∷ es) fs = omega (arith, opens-append r es fs)
opens-append r (closed s ∷ es) fs = opens-append r es fs
opens-append r (e ∷ es) fs = opens-append r es fs

closes-append :
    (r : Resource) (es fs : List Effect) → closes r (es ++ fs) ≡ closes r es + closes r fs
closes-append r [] fs = omega arith
closes-append r (closed s ∷ es) fs = omega (arith, closes-append r es fs)
closes-append r (opened s ∷ es) fs = closes-append r es fs
closes-append r (e ∷ es) fs = closes-append r es fs

module _ (r : Resource) where
  opens-when :
      (b : Bool) (s : Resource) (fs : List Effect)
      → opens r (when b (closed s ∷ []) ++ fs) ≡ opens r fs
  opens-when true s fs = refl
  opens-when false s fs = refl

  closes-when :
      (b : Bool) (s : Resource) (fs : List Effect)
      → closes r (when b (closed s ∷ []) ++ fs) ≡ (if b then same r s else 0) + closes r fs
  closes-when true s fs = refl
  closes-when false s fs = omega arith

  opens_ticker :
      (b stats : Bool) (fs : List Effect)
      → opens r (when b (closed ticker ∷ when stats (stats_logged ∷ [])) ++ fs) ≡ opens r fs
  opens_ticker true true fs = refl
  opens_ticker true false fs = refl
  opens_ticker false stats fs = refl

  closes_ticker :
      (b stats : Bool) (fs : List Effect)
      → closes r (when b (closed ticker ∷ when stats (stats_logged ∷ [])) ++ fs)
        ≡ (if b then same r ticker else 0) + closes r fs
  closes_ticker true true fs = refl
  closes_ticker true false fs = refl
  closes_ticker false stats fs = omega arith

-- The flags of an App, as the closed resources count them.
has_lem :
    (a : App) (r : Resource)
    → (if a.has_ticker then same r ticker else 0)
        + ((if a.has_live then same r live else 0)
            + ((if a.has_capture then same r capture else 0)
                + ((if a.has_keylog then same r keylog_server else 0)
                    + ((if a.has_listener then same r listener else 0)
                        + ((if a.has_loader then same r loader else 0) + 0)))))
      ≡ has a r
has_lem a loader = ground arith
has_lem a listener = ground arith
has_lem a capture = ground arith
has_lem a keylog_server = ground arith
has_lem a live = ground arith
has_lem a ticker = ground arith

-- Close closes exactly what the App has, each once.
pub closes-close_effects :
    (cfg : Config) (a : App) (r : Resource) → closes r (close_effects cfg a) ≡ has a r
unfolding close_effects
closes-close_effects cfg a r =
    rw (closes_ticker r, closes-when r, closes-when r, closes-when r, closes-when r, closes-when r)
      (has_lem a r)

pub opens-close_effects :
    (cfg : Config) (a : App) (r : Resource) → opens r (close_effects cfg a) ≡ 0
unfolding close_effects
opens-close_effects cfg a r =
    rw (opens_ticker r, opens-when r, opens-when r, opens-when r, opens-when r, opens-when r) refl

-- What was opened and not closed again is what the App has.
abbrev pub Owns : App → List Effect → Type 0
Owns a es = (r : Resource) → opens r es ≡ closes r es + has a r

-- A failed start has closed all that it opened; another leaves an App that has what it did not
-- close.
abbrev pub Balanced : Started → Type 0
Balanced (es, none) = (r : Resource) → opens r es ≡ closes r es
Balanced (es, some a) = Owns a es

pub give_up-Balanced :
    (cfg : Config) (es : List Effect) (a : App) → Owns a es → Balanced (give_up cfg es a)
unfolding give_up
give_up-Balanced cfg es a o r =
    rw
      (
        opens-append r es (close_effects cfg a),
        closes-append r es (close_effects cfg a),
        closes-close_effects cfg a r,
        opens-close_effects cfg a r,
      )
      (omega (arith, o r))

-- More effects, with their resources in the App.
pub Owns-append :
    (es fs : List Effect) (a b : App)
    → ((r : Resource) → has a r + opens r fs ≡ closes r fs + has b r)
    → Owns a es
    → Owns b (es ++ fs)
Owns-append es fs a b more o r =
    omega (arith, opens-append r es fs, closes-append r es fs, more r, o r)
