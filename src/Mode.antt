-- ===== src/Mode.antt =====
-- proxy/mode.py: `ModeManager`. Times are readings of `time.time()` in ticks of any fixed length;
-- the failure threshold and the retry interval of the configuration are not negative.
pub mod Invariant
pub mod Window
use oig_proxy.Common.{
  ℕ, ◌+◌, Bool, true, false, not, ◌||◌, Option, none, some, List, [], ◌∷◌, ◌++◌, leb, Text, codes,
  ◌==◌, text_eq, strip, lower, if◌then◌else◌,
}

pub data ConnectionMode : Type 0 where
  online offline : ConnectionMode

-- One call of `on_hybrid_transition`.
pub record Transition : Type 0 where
  pub state : Text
  pub started_at : ℕ
  pub reason : Option Text

pub record ModeManager : Type 0 where
  pub configured_mode : Text
  pub runtime_mode : ConnectionMode
  pub fail_count : ℕ
  pub fail_threshold : ℕ
  pub retry_interval : ℕ
  pub last_offline_time : ℕ
  pub in_offline : Bool
  pub has_callback : Bool
  -- the calls of the callback so far, the last one first
  pub transitions : List Transition

abbrev pub online_text : Text
online_text = codes "online"

abbrev pub hybrid_text : Text
hybrid_text = codes "hybrid"

abbrev pub offline_text : Text
offline_text = codes "offline"

unfoldable pub get_initial_mode : Text → ConnectionMode
get_initial_mode configured = if configured == offline_text then offline else online

-- `__init__`; `main.py` sets the callback afterwards.
unfoldable pub init : Text → ℕ → ℕ → Bool → ModeManager
unfolding get_initial_mode
init configured threshold interval callback = record {
  configured_mode = configured;
  runtime_mode = get_initial_mode configured;
  fail_count = 0;
  fail_threshold = threshold;
  retry_interval = interval;
  last_offline_time = 0;
  in_offline = false;
  has_callback = callback;
  transitions = [];
}

unfoldable pub is_hybrid_mode : ModeManager → Bool
is_hybrid_mode m = m.configured_mode == hybrid_text

unfoldable pub force_offline_enabled : ModeManager → Bool
force_offline_enabled m = m.configured_mode == offline_text

-- `now - last_offline_time >= retry_interval`, with the subtraction moved to the other side.
unfoldable pub should_try_cloud : ModeManager → ℕ → Bool
should_try_cloud m now =
    if m.configured_mode == offline_text
    then false
    else if m.configured_mode == online_text
    then true
    else if not m.in_offline
    then true
    else leb (m.last_offline_time + m.retry_interval) now

notify : Transition → ModeManager → ModeManager
notify t m = if m.has_callback then record m { transitions = t ∷ m.transitions } else m

-- `now` is the clock at the restart of the window, `now'` the clock at the switch.
unfoldable pub record_failure : Option Text → ℕ → ℕ → ModeManager → ModeManager
unfolding is_hybrid_mode notify
record_failure reason now now' m =
    if not (is_hybrid_mode m)
    then m
    else let counted = record m { fail_count = m.fail_count + 1 } in
      let waiting =
        if counted.in_offline then record counted { last_offline_time = now } else counted in
      if leb waiting.fail_threshold waiting.fail_count
      then if not waiting.in_offline
        then notify (record { state = offline_text; started_at = now'; reason = reason })
            (record waiting { in_offline = true; last_offline_time = now'; runtime_mode = offline })
        else waiting
      else waiting

unfoldable pub record_success : ℕ → ModeManager → ModeManager
unfolding is_hybrid_mode notify
record_success now m =
    if not (is_hybrid_mode m)
    then m
    else let back =
        if m.in_offline
        then notify (record { state = online_text; started_at = now; reason = none })
            (record m { in_offline = false; runtime_mode = online })
        else m in
      record back { fail_count = 0 }

unfoldable pub is_offline : ModeManager → Bool
unfolding force_offline_enabled
is_offline m = if force_offline_enabled m then true else m.in_offline

apply_mode : Text → ModeManager → ModeManager
apply_mode mode m =
    if mode == offline_text
    then record m { configured_mode = mode; in_offline = true; runtime_mode = offline }
    else record m {
      configured_mode = mode;
      in_offline = false;
      fail_count = 0;
      runtime_mode = online;
    }

unfoldable pub apply_configured_mode : Text → ModeManager → ModeManager × Bool
unfolding apply_mode
apply_configured_mode configured m =
    let mode = lower (strip configured) in
    if mode == online_text || (mode == hybrid_text || mode == offline_text)
    then (apply_mode mode m, true)
    else (m, false)

-- What the rest of the program does to a mode manager.
pub data Event : Type 0 where
  failure : Option Text → ℕ → ℕ → Event
  success : ℕ → Event
  apply : Text → Event

unfoldable pub step : ModeManager → Event → ModeManager
step m (failure reason now now') = record_failure reason now now' m
step m (success now) = record_success now m
step m (apply configured) = (apply_configured_mode configured m).0

unfoldable pub run : ModeManager → List Event → ModeManager
run m [] = m
run m (e ∷ es) = run (step m e) es
