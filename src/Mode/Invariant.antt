-- ===== src/Mode/Invariant.antt =====
-- What holds of the mode manager between any two of its operations.
use oig_proxy.Common.{
  ℕ, ◌≤◌, ◌<◌, ◌≡◌, ◌⊎◌, Bool, true, false, Option, List, [], ◌∷◌, arith, Text, text_eq, strip,
  lower,
}
use oig_proxy.Common.Texts.{text_beq_iff}
use oig_proxy.Mode.{
  ModeManager, online, offline, online_text, hybrid_text, offline_text, init, record_failure,
  record_success, apply_configured_mode, Event, failure, success, apply, step, run,
}

-- The flag and the runtime mode agree; in hybrid mode the flag is set exactly when the count of
-- failures has reached the threshold.
pub record Consistent (m : ModeManager) : Type 0 where
  pub threshold_pos : 0 < m.fail_threshold
  pub flag_runtime : m.in_offline ≡ true → m.runtime_mode ≡ offline
  pub runtime_flag :
      m.in_offline ≡ false → (m.runtime_mode ≡ online) ⊎ (m.configured_mode ≡ offline_text)
  pub online_flag : m.configured_mode ≡ online_text → m.in_offline ≡ false
  pub hybrid_counts :
      m.configured_mode ≡ hybrid_text
      → (m.in_offline ≡ true → m.fail_threshold ≤ m.fail_count)
        × (m.in_offline ≡ false → m.fail_count < m.fail_threshold)

pub init-Consistent :
    (configured : Text) (threshold interval : ℕ) (callback : Bool)
    → 0 < threshold
    → Consistent (init configured threshold interval callback)
unfolding init
init-Consistent configured threshold interval callback h =
    ground (arith, text_beq_iff configured offline_text)

failure-Consistent :
    (reason : Option Text) (now now' : ℕ) (m : ModeManager)
    → Consistent m
    → Consistent (record_failure reason now now' m)
unfolding record_failure
failure-Consistent reason now now' m h = ground (arith, text_beq_iff m.configured_mode hybrid_text)

success-Consistent : (now : ℕ) (m : ModeManager) → Consistent m → Consistent (record_success now m)
unfolding record_success
success-Consistent now m h = ground (arith, text_beq_iff m.configured_mode hybrid_text)

apply-Consistent :
    (configured : Text) (m : ModeManager)
    → Consistent m
    → Consistent (apply_configured_mode configured m).0
unfolding apply_configured_mode
apply-Consistent configured m h = ground (
  arith,
  text_beq_iff (lower (strip configured)) online_text,
  text_beq_iff (lower (strip configured)) hybrid_text,
  text_beq_iff (lower (strip configured)) offline_text,
)

pub step-Consistent : (m : ModeManager) (e : Event) → Consistent m → Consistent (step m e)
unfolding step
step-Consistent m (failure reason now now') h = failure-Consistent reason now now' m h
step-Consistent m (success now) h = success-Consistent now m h
step-Consistent m (apply configured) h = apply-Consistent configured m h

-- From a consistent manager, whatever failures, successes and mode changes follow, the manager
-- is consistent again.
pub run-Consistent : (m : ModeManager) (es : List Event) → Consistent m → Consistent (run m es)
unfolding run
run-Consistent m [] h = h
run-Consistent m (e ∷ es) h = run-Consistent (step m e) es (step-Consistent m e h)
