-- ===== src/App.antt =====
-- The life cycle of cmd/app/app.go. What Start and Close do to the world is a list of effects; what
-- the world answers is a record of faults.
pub mod Counts
pub mod Balance
pub mod Wiring
pub mod Tmpfs
pub mod Settings
pub mod Sources
pub mod Report
pub mod Files
mod Tests
use go_e_bpf_proxy.Base.{
  ◌≡◌, Bool, true, false, not, ◌&&◌, Option, none, some, List, [], ◌∷◌, ◌++◌, ℤ, pos, ltb_ℤ,
  if◌then◌else◌,
}

pub data Resource : Type 0 where
  loader listener capture keylog_server live ticker : Resource

-- `opened` also stands for a ticker's channel made, and `closed` for live.Stop. `load_failed`,
-- `capture_failed` and `keylog_failed` are a Load, a CreateRunCapture and a NewSocketServer that return
-- an error, having perhaps made directories or files that they leave; nothing is open then.
pub data Effect : Type 0 where
  opened closed : Resource → Effect
  keylog_deleted attached age_pass capture_refused capture_failed capture_started stats_logged :
      Effect
  load_failed keylog_failed : Effect
  cleaned_up : Effect

-- The settings that these functions read.
pub record Config : Type 0 where
  pub max_bytes : ℤ
  pub stats_interval : ℤ

-- Which of the calls in Start and Close fail, and whether the room is less than the headers.
pub record Faults : Type 0 where
  pub not_tmpfs : Bool
  pub delete_fails : Bool
  pub load_fails : Bool
  pub attach_fails : Bool
  pub listen_fails : Bool
  pub target_refused : Bool
  pub room_fails : Bool
  pub room_short : Bool
  pub create_fails : Bool
  pub keylog_fails : Bool
  pub live_fails : Bool
  pub close_fails : Effect → Bool

-- Which fields of the App are not nil.
pub record App : Type 0 where
  pub has_loader : Bool
  pub has_listener : Bool
  pub has_capture : Bool
  pub has_keylog : Bool
  pub has_live : Bool
  pub has_ticker : Bool

abbrev pub when : Bool → List Effect → List Effect
when b es = if b then es else []

-- What Close does, in this order, whatever fails.
pub close_effects : Config → App → List Effect
close_effects cfg a =
    when a.has_ticker (closed ticker ∷ when (ltb_ℤ (pos 0) cfg.stats_interval) (stats_logged ∷ []))
    ++ (when a.has_live (closed live ∷ [])
        ++ (when a.has_capture (closed capture ∷ [])
            ++ (when a.has_keylog (closed keylog_server ∷ [])
                ++ (when a.has_listener (closed listener ∷ [])
                    ++ (when a.has_loader (closed loader ∷ [])
                        ++ cleaned_up ∷ keylog_deleted ∷ [])))))

-- Which steps of Close return an error at all.
can_fail : Effect → Bool
can_fail (closed ticker) = false
can_fail stats_logged = false
can_fail _ = true

failing : (Effect → Bool) → List Effect → List Effect
unfolding can_fail
failing fails [] = []
failing fails (e ∷ es) =
    let rest = failing fails es in if can_fail e && fails e then e ∷ rest else rest

-- The App after Close, what Close did, and the calls whose errors it joins.
pub close : Config → Faults → App → App × List Effect × List Effect
unfolding failing
close cfg f a = (
  record a { has_ticker = false },
  close_effects cfg a,
  failing f.close_fails (close_effects cfg a),
)

-- What Start has done, and the App unless it failed.
abbrev pub Started : Type 0
Started = List Effect × Option App

-- `_ = a.Close()`, and the error.
pub give_up : Config → List Effect → App → Started
give_up cfg es a = (es ++ close_effects cfg a, none)

pub start_ticker : List Effect → App → Started
start_ticker es a = (es ++ opened ticker ∷ [], some (record a { has_ticker = true }))

pub start_live : Config → Faults → List Effect → App → Started
start_live cfg f es a =
    if not a.has_capture
    then start_ticker es a
    else if f.live_fails
    then give_up cfg es a
    else start_ticker (es ++ opened live ∷ []) (record a { has_live = true })

pub start_keylog : Config → Faults → List Effect → App → Started
start_keylog cfg f es a =
    if f.keylog_fails
    then give_up cfg (es ++ keylog_failed ∷ []) a
    else start_live cfg f (es ++ opened keylog_server ∷ []) (record a { has_keylog = true })

-- openCapture, and what Start does behind it.
pub open_capture : Config → Faults → List Effect → App → Started
open_capture cfg f es a =
    if f.target_refused
    then give_up cfg es a
    else if f.room_fails
    then give_up cfg (es ++ age_pass ∷ []) a
    else if ltb_ℤ (pos 0) cfg.max_bytes && f.room_short
    then start_keylog cfg f (es ++ age_pass ∷ capture_refused ∷ []) a
    else if f.create_fails
    then give_up cfg (es ++ age_pass ∷ capture_failed ∷ []) a
    else start_keylog cfg f (es ++ age_pass ∷ opened capture ∷ capture_started ∷ [])
        (record a { has_capture = true })

pub start_relay : Config → Faults → List Effect → App → Started
start_relay cfg f es a =
    if f.attach_fails
    then give_up cfg es a
    else if f.listen_fails
    then give_up cfg (es ++ attached ∷ []) a
    else open_capture cfg f (es ++ attached ∷ opened listener ∷ [])
        (record a { has_listener = true })

abbrev pub nothing_up : App
nothing_up = record {
  has_loader = false;
  has_listener = false;
  has_capture = false;
  has_keylog = false;
  has_live = false;
  has_ticker = false;
}

pub start : Config → Faults → Started
start cfg f =
    if f.not_tmpfs
    then ([], none)
    else if f.delete_fails
    then (keylog_deleted ∷ [], none)
    else if f.load_fails
    then (keylog_deleted ∷ load_failed ∷ [], none)
    else start_relay cfg f (keylog_deleted ∷ opened loader ∷ [])
        (record nothing_up { has_loader = true })
