-- ===== src/Delivery/Steps.antt =====
-- What the rest of the program does to a `TwinDelivery` and its queue, one call at a time.
pub mod Expiry
pub mod Counted
pub mod Taking
pub mod Pending
use oig_proxy.Common.{ℕ, Bool, Option, none, some, List, [], ◌∷◌, Text}
use oig_proxy.Common.Decimal.{ℤ}
use oig_proxy.Values.{Floats, Value}
use oig_proxy.Audit.Steps.{SettingStep, SettingResult}
use oig_proxy.Audit.Records.{Draw}
use oig_proxy.Queue
use oig_proxy.Queue.{TwinSetting, Draws}
use oig_proxy.Delivery.State.{Delivery, record_audit_step}
use oig_proxy.Delivery.Follow.{
  expire_cloud_pending, begin_cloud_setting, mark_cloud_reason_setting, match_cloud_tbl_events,
  set_cloud_inflight, clear_cloud_inflight,
}
use oig_proxy.Delivery.Local.{acknowledge, deliver_pending, clear_session, shutdown}
use oig_proxy.Delivery.Counters.{observe_id_set, observe_msg_id, next_id_set, next_msg_id}

-- Calls with their arguments and clock readings. `inflight`, `inflight_setting`,
-- `is_cloud_inflight` and `has_pending_or_inflight` change the state as `expire` does.
pub data Call (F : Type 0) : Type 0 where
  enqueue : Draws → (table key : Text) → Value F → (confirm audit raw : Text) → Call F
  record_step :
      TwinSetting F
      → Text
      → SettingStep
      → Option SettingResult
      → Value F
      → Option Text
      → Text
      → Call F
  expire : ℕ → Call F
  deliver : (t t' t'' : ℕ) → Text → Option Text → Call F
  confirm : (table key : Text) → Option Text → Call F
  end_session : Text → Call F
  stop : Call F
  begin_cloud :
      (expiry wall mono : ℕ) (device table key : Text)
      → Value F
      → Text
      → (msg_id id_set : ℤ) → Text
      → Call F
  mark_cloud : (expiry at : ℕ) (device session : Text) → Call F
  match_cloud : ℕ → (device table key : Text) → Value F → Text → Call F
  set_legacy : Call F
  clear_legacy : ℕ → Call F
  see_id_set : Option ℤ → Call F
  see_msg_id : Option ℤ → Call F
  take_id_set : ℕ → Call F
  take_msg_id : ℕ → Call F

module _ (fl : Floats) (supply : ℕ → Draw) where
  open fl use {Float}

  unfoldable pub perform : Call Float → Delivery Float → Delivery Float
  perform (enqueue r table key v c a raw) d = record d {
    twin_queue = Queue.enqueue r table key v c a raw d.twin_queue;
  }
  perform (record_step s device step r v raw session) d =
      record_audit_step fl supply s device step r v raw session d
  perform (expire now) d = expire_cloud_pending fl supply now d
  perform (deliver t t' t'' device session) d =
      (deliver_pending fl supply t t' t'' device session d).0
  perform (confirm table key session) d = (acknowledge table key session d).0
  perform (end_session session) d = clear_session fl supply session d
  perform stop d = shutdown fl supply d
  perform (begin_cloud e w m device table key v raw msg set c) d =
      begin_cloud_setting fl supply e w m device table key v raw msg set c d
  perform (mark_cloud e at device session) d =
      (mark_cloud_reason_setting fl supply e at device session d).0
  perform (match_cloud e device table key v session) d =
      (match_cloud_tbl_events fl supply e device table key v session d).0
  perform set_legacy d = set_cloud_inflight fl supply d
  perform (clear_legacy now) d = clear_cloud_inflight fl supply now d
  perform (see_id_set n) d = observe_id_set n d
  perform (see_msg_id n) d = observe_msg_id n d
  perform (take_id_set epoch) d = (next_id_set epoch d).0
  perform (take_msg_id random) d = (next_msg_id random d).0

  unfoldable pub perform_all : List (Call Float) → Delivery Float → Delivery Float
  unfolding perform
  perform_all [] d = d
  perform_all (c ∷ cs) d = perform_all cs (perform c d)
