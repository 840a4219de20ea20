-- ===== src/Delivery/Steps/Taking.antt =====
-- What holds of the queue, and still holds when a setting is taken out of it, holds after the
-- expiry and the removal of settings.
use oig_proxy.Common.{
  ℕ, ◌+◌, Bool, true, Option, none, some, List, [], ◌∷◌, arith, Text, text_eq, pair_eq, subst, sym,
  leb,
}
use oig_proxy.Common.Dict
use oig_proxy.Common.Dict.{Dict}
use oig_proxy.Common.Keeps.{keep-if, keep-option}
use oig_proxy.Values.{Floats, Value}
use oig_proxy.Audit.Steps.{SettingStep, SettingResult, timeout, session_cleared}
use oig_proxy.Audit.Records.{Draw}
use oig_proxy.Queue
use oig_proxy.Queue.{TwinSetting}
use oig_proxy.Delivery.State.{
  CloudPending, Delivery, record_audit_step, record_plain, record_ack_reason_setting,
}
use oig_proxy.Delivery.Acknowledged.{remove-SameQueue}
use oig_proxy.Delivery.Keeps.{record_audit_step-SameWork}
use oig_proxy.Delivery.Cloud.{iter_cloud_pending, remove_cloud_pending}
use oig_proxy.Delivery.Follow.{expire_one, expire_all, expire_cloud_pending, clear_all}
use oig_proxy.Delivery.Local.{
  acknowledge, acknowledge_session, acknowledge_cloud, first_cloud, is_inflight_key,
  queue_acknowledge, clear_global_inflight, drop_session, clear_session, shutdown_inflight,
  record_queued, expire_inflight, expire_session,
}

module _ {F : Type 0} (Q : Dict (Text × Text) (TwinSetting F) → Type 0)
    (closed : (k : Text × Text) (q : Dict (Text × Text) (TwinSetting F))
      → Q q
      → Q (Dict.erase k q)) where
  abbrev pub QueueHas : Delivery F → Type 0
  QueueHas d = Q d.twin_queue.queue

  pub remove-QueueHas :
      (p : CloudPending F) (d : Delivery F) → QueueHas d → QueueHas (remove_cloud_pending p d)
  remove-QueueHas p d c = subst (λ q. Q q.queue) (sym ((remove-SameQueue p d).twin_queue)) c

  queue_acknowledge-QueueHas :
      (table key : Text) (d : Delivery F) → QueueHas d → QueueHas (queue_acknowledge table key d).0
  unfolding queue_acknowledge
  queue_acknowledge-QueueHas table key d c =
      ground (arith, closed (table, key) d.twin_queue.queue c)

  acknowledge_session-QueueHas :
      (table key : Text) (session : Option Text) (d : Delivery F)
      → QueueHas d
      → QueueHas (acknowledge_session table key session d)
  unfolding acknowledge_session drop_session
  acknowledge_session-QueueHas table key none d c = c
  acknowledge_session-QueueHas table key (some session) d c =
      keep-option QueueHas (Dict.get session d.session_inflight) c λ i. keep-if QueueHas _ c c

  acknowledge_cloud-QueueHas :
      (table key : Text) (d : Delivery F) → QueueHas d → QueueHas (acknowledge_cloud table key d).0
  unfolding acknowledge_cloud
  acknowledge_cloud-QueueHas table key d c =
      keep-option (λ (r : Delivery F × Bool). QueueHas r.0)
        (first_cloud table key (iter_cloud_pending d)) c λ p. remove-QueueHas p d c

  pub acknowledge-QueueHas :
      (table key : Text) (session : Option Text) (d : Delivery F)
      → QueueHas d
      → QueueHas (acknowledge table key session d).0
  unfolding acknowledge clear_global_inflight
  acknowledge-QueueHas table key session d c =
      let d' = acknowledge_session table key session d in
      let c' = acknowledge_session-QueueHas table key session d c in
      let d'' = (queue_acknowledge table key d').0 in
      let c'' = queue_acknowledge-QueueHas table key d' c' in
      keep-if (λ (r : Delivery F × Bool). QueueHas r.0) (is_inflight_key table key d')
        (queue_acknowledge-QueueHas table key (clear_global_inflight d') c')
        (keep-if (λ (r : Delivery F × Bool). QueueHas r.0) (queue_acknowledge table key d').1 c''
          (acknowledge_cloud-QueueHas table key d'' c''))

module _ (fl : Floats) (supply : ℕ → Draw) (Q : Dict (Text × Text) (TwinSetting fl.Float) → Type 0)
    (closed : (k : Text × Text) (q : Dict (Text × Text) (TwinSetting fl.Float))
      → Q q
      → Q (Dict.erase k q)) where
  open fl use {Float}

  abbrev Has : Delivery Float → Type 0
  Has = QueueHas Q closed

  pub audit-Has :
      (s : TwinSetting Float) (device : Text) (step : SettingStep) (r : Option SettingResult)
      (v : Value Float) (raw : Option Text) (session : Text) (d : Delivery Float)
      → Has d
      → Has (record_audit_step fl supply s device step r v raw session d)
  audit-Has s device step r v raw session d c =
      subst (λ q. Q q.queue)
        (sym ((record_audit_step-SameWork fl supply s device step r v raw session d).twin_queue)) c

  pub plain-Has :
      (step : SettingStep) (s : TwinSetting Float) (device session : Text) (d : Delivery Float)
      → Has d
      → Has (record_plain fl supply step s device session d)
  unfolding record_plain
  plain-Has step s device session d c = audit-Has s device step none Value.null none session d c

  pub queued-Has :
      (step : SettingStep) (table key session : Text) (d : Delivery Float)
      → Has d
      → Has (record_queued fl supply step table key session d)
  unfolding record_queued
  queued-Has step table key session d c =
      keep-option Has (Queue.get table key d.twin_queue) c
        λ s. keep-option Has d.inflight_device_id c λ device. plain-Has step s device session d c

  pub reason-Has :
      (s : TwinSetting Float) (device session : Text) (terminal : Bool) (d : Delivery Float)
      → Has d
      → Has (record_ack_reason_setting fl supply s device session terminal d)
  unfolding record_ack_reason_setting
  reason-Has s device session terminal d c = audit-Has s device _ _ _ _ session d c

  expire_one-Has :
      (now : ℕ) (p : CloudPending Float) (d : Delivery Float)
      → Has d
      → Has (expire_one fl supply now p d)
  unfolding expire_one
  expire_one-Has now p d c =
      let plain =
        keep-if Has (leb (p.tracked_at + d.inflight_timeout) now)
          (remove-QueueHas Q closed p _ (plain-Has timeout p.setting p.device_id [] d c)) c in
      keep-if Has p.reason_setting_seen
        (keep-option Has p.reason_setting_at plain λ at.
          keep-if Has (leb (at + d.inflight_timeout) now)
            (remove-QueueHas Q closed p _ (reason-Has p.setting p.device_id [] true d c)) c)
        plain

  expire_all-Has :
      (now : ℕ) (ps : List (CloudPending Float)) (d : Delivery Float)
      → Has d
      → Has (expire_all fl supply now ps d)
  unfolding expire_all
  expire_all-Has now [] d c = c
  expire_all-Has now (p ∷ ps) d c =
      expire_all-Has now ps (expire_one fl supply now p d) (expire_one-Has now p d c)

  pub expire-Has :
      (now : ℕ) (d : Delivery Float) → Has d → Has (expire_cloud_pending fl supply now d)
  unfolding expire_cloud_pending
  expire-Has now d c = expire_all-Has now (iter_cloud_pending d) d c

  pub clear_all-Has :
      (ps : List (CloudPending Float)) (d : Delivery Float) → Has d → Has (clear_all fl supply ps d)
  unfolding clear_all
  clear_all-Has [] d c = c
  clear_all-Has (p ∷ ps) d c =
      clear_all-Has ps _
        (remove-QueueHas Q closed p _ (plain-Has session_cleared p.setting p.device_id [] d c))

  pub shutdown_inflight-Has : (d : Delivery Float) → Has d → Has (shutdown_inflight fl supply d)
  unfolding shutdown_inflight clear_global_inflight
  shutdown_inflight-Has d c = keep-option Has d.inflight_key c λ k.
      keep-option Has d.inflight_device_id c λ device. queued-Has session_cleared k.0 k.1 [] d c

  pub clear_session-Has :
      (session : Text) (d : Delivery Float) → Has d → Has (clear_session fl supply session d)
  unfolding clear_session drop_session
  clear_session-Has session d c =
      keep-option Has (Dict.get session d.session_inflight) c
        λ i. queued-Has session_cleared i.table i.key session d c

  pub expire_inflight-Has :
      (now : ℕ) (session : Text) (d : Delivery Float)
      → Has d
      → Has (expire_inflight fl supply now session d)
  unfolding expire_inflight clear_global_inflight
  expire_inflight-Has now session d c = keep-option Has d.inflight_key c λ k.
      keep-option Has d.inflight_since c λ since.
        keep-if Has (leb (since + d.inflight_timeout) now)
          (queue_acknowledge-QueueHas Q closed k.0 k.1
            (record_queued fl supply timeout k.0 k.1 session d)
            (queued-Has timeout k.0 k.1 session d c))
          c

  pub expire_session-Has :
      (now : ℕ) (session : Option Text) (d : Delivery Float)
      → Has d
      → Has (expire_session fl supply now session d).0
  unfolding expire_session drop_session
  expire_session-Has now none d c = c
  expire_session-Has now (some session) d c =
      keep-option (λ (r : Delivery Float × Bool). Has r.0) (Dict.get session d.session_inflight) c
        λ i.
          keep-if (λ (r : Delivery Float × Bool). Has r.0) (leb (i.since + d.inflight_timeout) now)
            (queued-Has timeout i.table i.key session d c) c
