-- ===== src/Audit/Steps.antt =====
-- The taxonomies of telemetry/settings_audit.py: steps, results, terminal steps, precedence.
use oig_proxy.Common.{ℕ, Bool, true, false, Option, some, ltb}

pub data SettingStep : Type 0 where
  incoming rejected_not_allowed rejected_validation enqueued superseded : SettingStep
  deliver_selected injected_box ack_box_observed ack_tbl_events : SettingStep
  ack_reason_setting nack timeout session_cleared : SettingStep

pub data SettingResult : Type 0 where
  pending rejected replaced confirmed failed incomplete : SettingResult

-- step in TERMINAL_STEPS
unfoldable pub is_terminal : SettingStep → Bool
is_terminal superseded = true
is_terminal ack_tbl_events = true
is_terminal ack_reason_setting = true
is_terminal nack = true
is_terminal timeout = true
is_terminal session_cleared = true
is_terminal _ = false

-- ACK_TERMINAL_PRECEDENCE.get(step, 0)
unfoldable pub precedence : SettingStep → ℕ
precedence ack_tbl_events = 3
precedence ack_reason_setting = 2
precedence ack_box_observed = 1
precedence _ = 0

unfoldable pub is_stronger_ack : SettingStep → SettingStep → Bool
unfolding precedence
is_stronger_ack this_step other_step = ltb (precedence other_step) (precedence this_step)

-- The result `SUPERSEDED` is the constructor `replaced`.
unfoldable pub terminal_result_for_step : SettingStep → SettingResult
terminal_result_for_step rejected_not_allowed = rejected
terminal_result_for_step rejected_validation = rejected
terminal_result_for_step superseded = replaced
terminal_result_for_step ack_tbl_events = confirmed
terminal_result_for_step ack_reason_setting = confirmed
terminal_result_for_step nack = failed
terminal_result_for_step timeout = failed
terminal_result_for_step session_cleared = incomplete
terminal_result_for_step _ = failed

-- result != SettingResult.PENDING, for a result that may be left out
unfoldable pub is_final : Option SettingResult → Bool
is_final (some pending) = false
is_final _ = true

unfoldable pub result_is_pending : SettingResult → Bool
result_is_pending pending = true
result_is_pending _ = false
