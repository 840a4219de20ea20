-- ===== src/Delivery/Keeps.antt =====
-- Recording an audit step changes only what belongs to the audit.
use oig_proxy.Common.{ℕ, ◌≡◌, Option, none, arith, Text, text_eq}
use oig_proxy.Values.{Floats, Value}
use oig_proxy.Audit.Steps.{SettingStep, SettingResult}
use oig_proxy.Audit.Records.{Draw}
use oig_proxy.Queue.{TwinSetting}
use oig_proxy.Delivery.State.{Delivery, record_audit_step, emit_step, record_plain}

-- The two states differ at most in the audit: what was recorded, tracked, emitted and drawn.
pub record SameWork {F : Type 0} (d e : Delivery F) : Type 0 where
  pub twin_queue : d.twin_queue ≡ e.twin_queue
  pub inflight_timeout : d.inflight_timeout ≡ e.inflight_timeout
  pub has_collector : d.has_collector ≡ e.has_collector
  pub cloud_pending : d.cloud_pending ≡ e.cloud_pending
  pub cloud_legacy_inflight : d.cloud_legacy_inflight ≡ e.cloud_legacy_inflight
  pub session_inflight : d.session_inflight ≡ e.session_inflight
  pub inflight_key : d.inflight_key ≡ e.inflight_key
  pub inflight_device_id : d.inflight_device_id ≡ e.inflight_device_id
  pub inflight_since : d.inflight_since ≡ e.inflight_since
  pub last_seen_id_set : d.last_seen_id_set ≡ e.last_seen_id_set
  pub last_msg_id : d.last_msg_id ≡ e.last_msg_id
  pub made : d.made ≡ e.made

module _ (fl : Floats) (supply : ℕ → Draw) where
  open fl use {Float}

  pub record_audit_step-SameWork :
      (s : TwinSetting Float) (device : Text) (step : SettingStep) (r : Option SettingResult)
      (v : Value Float) (raw : Option Text) (session : Text) (d : Delivery Float)
      → SameWork (record_audit_step fl supply s device step r v raw session d) d
  unfolding record_audit_step emit_step
  record_audit_step-SameWork s device step r v raw session d = ground arith

  pub record_plain-SameWork :
      (step : SettingStep) (s : TwinSetting Float) (device session : Text) (d : Delivery Float)
      → SameWork (record_plain fl supply step s device session d) d
  unfolding record_plain
  record_plain-SameWork step s device session d =
      record_audit_step-SameWork s device step none Value.null none session d
