-- ===== src/Delivery/Exclusive.antt =====
-- At most one setting of the queue is in flight.
use oig_proxy.Common.{
  ℕ, ◌+◌, ◌<◌, ◌≡◌, inl, inr, Option, none, some, arith, Text, text_eq, pair_eq, Option-cases,
}
use oig_proxy.Common.Dict
use oig_proxy.Common.Dict.{Dict, values, get-put, get-erase, beq_refl}
use oig_proxy.Values.{Floats}
use oig_proxy.Audit.Steps.{SettingStep, timeout}
use oig_proxy.Audit.Records.{Draw}
use oig_proxy.Queue
use oig_proxy.Queue.{TwinSetting, TwinQueue}
use oig_proxy.Delivery.State.{Delivery}
use oig_proxy.Delivery.Keeps.{SameWork, record_plain-SameWork}
use oig_proxy.Delivery.Local.{
  drop_session, record_queued, expire_inflight, expire_session, deliver_pending, session_text,
}

module _ (fl : Floats) (supply : ℕ → Draw) where
  open fl use {Float}

  -- Up to the audit, only the sessions differ.
  pub record SameFlight (d e : Delivery Float) : Type 0 where
    pub twin_queue : d.twin_queue ≡ e.twin_queue
    pub inflight_timeout : d.inflight_timeout ≡ e.inflight_timeout
    pub inflight_key : d.inflight_key ≡ e.inflight_key
    pub inflight_device_id : d.inflight_device_id ≡ e.inflight_device_id
    pub inflight_since : d.inflight_since ≡ e.inflight_since

  pub record_queued-SameWork :
      (step : SettingStep) (table key session : Text) (d : Delivery Float)
      → SameWork (record_queued fl supply step table key session d) d
  unfolding record_queued
  record_queued-SameWork step table key session d =
      elim (Option-cases (Queue.get table key d.twin_queue)) [
        | inl e ↦ ground (arith, e)
        | inr (s, e) ↦ elim (Option-cases d.inflight_device_id) [
          | inl f ↦ ground (arith, e, f)
          | inr (device, f) ↦
              ground (arith, e, f, record_plain-SameWork fl supply step s device session d)
        ]
      ]

  pub expire_session-SameFlight :
      (now : ℕ) (session : Option Text) (d : Delivery Float)
      → SameFlight (expire_session fl supply now session d).0 d
  unfolding expire_session drop_session
  expire_session-SameFlight now none d = ground arith
  expire_session-SameFlight now (some session) d =
      elim (Option-cases (Dict.get session d.session_inflight)) [
        | inl e ↦ ground (arith, e)
        | inr (i, e) ↦ ground (arith, e, record_queued-SameWork timeout i.table i.key session d)
      ]

  expire_inflight-waits :
      (now : ℕ) (session : Text) (d : Delivery Float) (k : Text × Text) (since : ℕ)
      → d.inflight_key ≡ some k
      → d.inflight_since ≡ some since
      → now < since + d.inflight_timeout
      → expire_inflight fl supply now session d ≡ d
  unfolding expire_inflight
  expire_inflight-waits now session d k since ek es lt = ground (arith, ek, es)

  -- While a setting is in flight and its time has not run out, nothing else is delivered, in any
  -- session: the queue and the setting in flight stay as they are.
  pub deliver_pending-exclusive :
      (t t' t'' : ℕ) (device : Text) (session : Option Text) (d : Delivery Float) (k : Text × Text)
      (since : ℕ)
      → d.inflight_key ≡ some k
      → d.inflight_since ≡ some since
      → t < since + d.inflight_timeout
      → let (d', delivered) = deliver_pending fl supply t t' t'' device session d in
        (delivered ≡ none)
        × (d'.twin_queue ≡ d.twin_queue)
        × (d'.inflight_key ≡ some k)
        × (d'.inflight_since ≡ some since)
  unfolding deliver_pending
  deliver_pending-exclusive t t' t'' device session d k since ek es lt =
      rw (expire_inflight-waits t (session_text session) d k since ek es lt)
        (ground (arith, ek, es, expire_session-SameFlight t' session d))
