-- ===== src/Delivery/Steps/Pending.antt =====
-- What holds of the queue, and still holds when a setting is taken out of it, holds after every
-- call but `enqueue`.
use oig_proxy.Common.{
  ℕ, Bool, true, false, Option, none, some, List, [], ◌∷◌, Text, text_eq, pair_eq,
}
use oig_proxy.Common.Dict
use oig_proxy.Common.Dict.{Dict}
use oig_proxy.Common.Keeps.{keep-if, keep-option}
use oig_proxy.Common.Decimal.{ℤ}
use oig_proxy.Values.{Floats, Value, normalize_value_for_text}
use oig_proxy.Audit.Steps.{deliver_selected}
use oig_proxy.Audit.Records.{Draw}
use oig_proxy.Queue
use oig_proxy.Queue.{TwinSetting}
use oig_proxy.Delivery.State.{CloudPending, Delivery}
use oig_proxy.Delivery.Cloud.{iter_cloud_pending, oldest_cloud_pending, pick_match}
use oig_proxy.Delivery.Follow.{
  expire_cloud_pending, begin_cloud_setting, mark_seen, mark_cloud_reason_setting,
  match_cloud_tbl_events, confirm_match, set_cloud_inflight, clear_cloud_inflight,
}
use oig_proxy.Delivery.Local.{
  deliver_pending, shutdown, shutdown_inflight, expire_inflight, expire_session, deliver_next,
  deliver_first, select, mark_inflight, session_text,
}
use oig_proxy.Delivery.Counters.{observe_id_set, observe_msg_id, next_id_set, next_msg_id}
use oig_proxy.Delivery.Steps.{
  Call, enqueue, record_step, expire, deliver, confirm, end_session, stop, begin_cloud, mark_cloud,
  match_cloud, set_legacy, clear_legacy, see_id_set, see_msg_id, take_id_set, take_msg_id, perform,
}
use oig_proxy.Delivery.Steps.Taking.{
  QueueHas, remove-QueueHas, acknowledge-QueueHas, plain-Has, reason-Has, expire-Has, clear_all-Has,
  shutdown_inflight-Has, clear_session-Has, audit-Has, expire_inflight-Has, expire_session-Has,
}

-- Any call but `enqueue`.
abbrev pub IsTaking : {F : Type 0} → Call F → Type 0
IsTaking (enqueue r table key v c a raw) = ⊥
IsTaking (record_step s device step r v raw session) = Unit
IsTaking (expire now) = Unit
IsTaking (deliver t t' t'' device session) = Unit
IsTaking (confirm table key session) = Unit
IsTaking (end_session session) = Unit
IsTaking stop = Unit
IsTaking (begin_cloud e w m device table key v raw msg set c) = Unit
IsTaking (mark_cloud e at device session) = Unit
IsTaking (match_cloud e device table key v session) = Unit
IsTaking set_legacy = Unit
IsTaking (clear_legacy now) = Unit
IsTaking (see_id_set n) = Unit
IsTaking (see_msg_id n) = Unit
IsTaking (take_id_set epoch) = Unit
IsTaking (take_msg_id random) = Unit

module _ (fl : Floats) (supply : ℕ → Draw) (Q : Dict (Text × Text) (TwinSetting fl.Float) → Type 0)
    (closed : (k : Text × Text) (q : Dict (Text × Text) (TwinSetting fl.Float))
      → Q q
      → Q (Dict.erase k q)) where
  open fl use {Float}

  abbrev Has : Delivery Float → Type 0
  Has = QueueHas Q closed

  deliver_first-Has :
      (now : ℕ) (device : Text) (session : Option Text) (l : List (TwinSetting Float))
      (d : Delivery Float)
      → Has d
      → Has (deliver_first fl supply now device session l d).0
  unfolding deliver_first select mark_inflight
  deliver_first-Has now device session [] d c = c
  deliver_first-Has now device session (s ∷ ss) d c =
      plain-Has fl supply Q closed deliver_selected s device (session_text session)
        (mark_inflight fl supply now device session s d) c

  deliver_next-Has :
      (now : ℕ) (device : Text) (session : Option Text) (waits : Bool) (k : Option (Text × Text))
      (d : Delivery Float)
      → Has d
      → Has (deliver_next fl supply now device session waits k d).0
  unfolding deliver_next
  deliver_next-Has now device session true k d c = c
  deliver_next-Has now device session false (some k) d c = c
  deliver_next-Has now device session false none d c =
      deliver_first-Has now device session (Queue.get_pending d.twin_queue) d c

  pub deliver-Has :
      (t t' t'' : ℕ) (device : Text) (session : Option Text) (d : Delivery Float)
      → Has d
      → Has (deliver_pending fl supply t t' t'' device session d).0
  unfolding deliver_pending
  deliver-Has t t' t'' device session d c =
      let d' = expire_inflight fl supply t (session_text session) d in
      let (d'', waits) = expire_session fl supply t' session d' in
      deliver_next-Has t'' device session waits d''.inflight_key d'' (
        expire_session-Has fl supply Q closed t' session d'
          (expire_inflight-Has fl supply Q closed t (session_text session) d c))

  pub begin-Has :
      (e w m : ℕ) (device table key : Text) (v : Value Float) (raw : Text) (msg set : ℤ) (cf : Text)
      (d : Delivery Float)
      → Has d
      → Has (begin_cloud_setting fl supply e w m device table key v raw msg set cf d)
  unfolding begin_cloud_setting
  begin-Has e w m device table key v raw msg set cf d c = expire-Has fl supply Q closed e d c

  pub mark-Has :
      (e at : ℕ) (device session : Text) (d : Delivery Float)
      → Has d
      → Has (mark_cloud_reason_setting fl supply e at device session d).0
  unfolding mark_cloud_reason_setting mark_seen
  mark-Has e at device session d c =
      let d' = expire_cloud_pending fl supply e d in
      let c' = expire-Has fl supply Q closed e d c in
      keep-option (λ (r : Delivery Float × Option (TwinSetting Float × Text)). Has r.0)
        (oldest_cloud_pending (some device) d') c'
        λ p.
          keep-if Has p.reason_setting_seen c'
            (reason-Has fl supply Q closed p.setting p.device_id session false d' c')

  confirm_match-Has :
      (v : Value Float) (session : Text) (o : Option (CloudPending Float)) (d : Delivery Float)
      → Has d
      → Has (confirm_match fl supply v session o d).0
  unfolding confirm_match
  confirm_match-Has v session none d c = c
  confirm_match-Has v session (some p) d c =
      remove-QueueHas Q closed p _
        (audit-Has fl supply Q closed p.setting p.device_id _ none v none session d c)

  pub match-Has :
      (e : ℕ) (device table key : Text) (v : Value Float) (session : Text) (d : Delivery Float)
      → Has d
      → Has (match_cloud_tbl_events fl supply e device table key v session d).0
  unfolding match_cloud_tbl_events
  match-Has e device table key v session d c =
      let d' = expire_cloud_pending fl supply e d in
      let c' = expire-Has fl supply Q closed e d c in
      keep-option (λ (r : Delivery Float × Option (TwinSetting Float × Text)). Has r.0)
        (Dict.get (device, (table, key)) d'.cloud_pending) c'
        λ ps.
          confirm_match-Has v session
            (pick_match (normalize_value_for_text fl) (normalize_value_for_text fl v) ps) d' c'

  pub perform-Has :
      (x : Call Float) (d : Delivery Float) → IsTaking x → Has d → Has (perform fl supply x d)
  unfolding perform shutdown set_cloud_inflight clear_cloud_inflight observe_id_set observe_msg_id
      next_id_set next_msg_id
  perform-Has (enqueue r table key v cf a raw) d i c = absurd i
  perform-Has (record_step s device step r v raw session) d i c =
      audit-Has fl supply Q closed s device step r v raw session d c
  perform-Has (expire now) d i c = expire-Has fl supply Q closed now d c
  perform-Has (deliver t t' t'' device session) d i c = deliver-Has t t' t'' device session d c
  perform-Has (confirm table key session) d i c =
      acknowledge-QueueHas Q closed table key session d c
  perform-Has (end_session session) d i c = clear_session-Has fl supply Q closed session d c
  perform-Has stop d i c =
      clear_all-Has fl supply Q closed (iter_cloud_pending (shutdown_inflight fl supply d))
        (shutdown_inflight fl supply d) (shutdown_inflight-Has fl supply Q closed d c)
  perform-Has (begin_cloud e w m device table key v raw msg set cf) d i c =
      begin-Has e w m device table key v raw msg set cf d c
  perform-Has (mark_cloud e at device session) d i c = mark-Has e at device session d c
  perform-Has (match_cloud e device table key v session) d i c =
      match-Has e device table key v session d c
  perform-Has set_legacy d i c = c
  perform-Has (clear_legacy now) d i c =
      expire-Has fl supply Q closed now (record d { cloud_legacy_inflight = false }) c
  perform-Has (see_id_set n) d i c = c
  perform-Has (see_msg_id n) d i c = c
  perform-Has (take_id_set epoch) d i c = c
  perform-Has (take_msg_id random) d i c = c
