-- ===== src/Delivery/Steps/Counted.antt =====
-- Every call keeps the count of the records that end a setting's life.
use oig_proxy.Common.{
  ℕ, ◌+◌, ◌≤◌, inl, inr, Bool, true, false, Option, none, some, List, [], ◌∷◌, arith, Text, text_eq,
  pair_eq, Option-cases, leb,
}
use Prim.Native.Nat.{zero-le}
use oig_proxy.Common.Dict
use oig_proxy.Common.Keeps.{keep-if, keep-option}
use oig_proxy.Values.{Floats, Value, normalize_value_for_text}
use oig_proxy.Common.Decimal.{ℤ}
use oig_proxy.Audit.Steps.{is_terminal, timeout, session_cleared, deliver_selected, ack_tbl_events}
use oig_proxy.Audit.Records.{Draw, make_incoming_record}
use oig_proxy.Queue
use oig_proxy.Queue.{TwinSetting}
use oig_proxy.Delivery.State.{CloudPending, Delivery}
use oig_proxy.Delivery.Cloud.{iter_cloud_pending, oldest_cloud_pending, pick_match}
use oig_proxy.Delivery.Follow.{
  expire_cloud_pending, begin_cloud_setting, mark_cloud_reason_setting, match_cloud_tbl_events,
  confirm_match,
}
use oig_proxy.Delivery.Local.{
  acknowledge, deliver_pending, clear_session, shutdown, expire_inflight, expire_session,
  deliver_next, deliver_first, mark_inflight, session_text, shutdown_inflight, acknowledge_session,
  acknowledge_cloud, first_cloud, queue_acknowledge,
}
use oig_proxy.Delivery.Terminal.{IsCounted, closings, record_audit_step-IsCounted}
use oig_proxy.Audit.Limits.{Tracking}
use oig_proxy.Queue.{TwinQueue}
use oig_proxy.Delivery.State.{new_delivery}
use oig_proxy.Delivery.Terminal.{rank-le}
use oig_proxy.Delivery.Follow.{set_cloud_inflight, clear_cloud_inflight}
use oig_proxy.Delivery.Counters.{observe_id_set, observe_msg_id, next_id_set, next_msg_id}
use oig_proxy.Delivery.Steps.{
  Call, enqueue, record_step, expire, deliver, confirm, end_session, stop, begin_cloud, mark_cloud,
  match_cloud, set_legacy, clear_legacy, see_id_set, see_msg_id, take_id_set, take_msg_id, perform,
  perform_all,
}
use oig_proxy.Delivery.Steps.Expiry.{
  SameAudit, IsCounted-same, remove-SameAudit, remove-IsCounted, plain-IsCounted, reason-IsCounted,
  queued-IsCounted, expire-IsCounted, clear_all-IsCounted,
}

acknowledge_session-SameAudit :
    {F : Type 0} (table key : Text) (session : Option Text) (d : Delivery F)
    → SameAudit (acknowledge_session table key session d) d
unfolding acknowledge_session
acknowledge_session-SameAudit table key none d = ground arith
acknowledge_session-SameAudit table key (some session) d = ground arith

acknowledge_cloud-SameAudit :
    {F : Type 0} (table key : Text) (d : Delivery F) → SameAudit (acknowledge_cloud table key d).0 d
unfolding acknowledge_cloud
acknowledge_cloud-SameAudit table key d =
    elim (Option-cases (first_cloud table key (iter_cloud_pending d))) [
      | inl e ↦ ground (arith, e)
      | inr (p, e) ↦ ground (arith, e, remove-SameAudit p d)
    ]

acknowledge-SameAudit :
    {F : Type 0} (table key : Text) (session : Option Text) (d : Delivery F)
    → SameAudit (acknowledge table key session d).0 d
unfolding acknowledge
acknowledge-SameAudit table key session d =
    let d' = acknowledge_session table key session d in
    ground (
      arith,
      acknowledge_session-SameAudit table key session d,
      acknowledge_cloud-SameAudit table key (queue_acknowledge table key d').0,
    )

module _ (fl : Floats) (supply : ℕ → Draw) where
  open fl use {Float}

  shutdown-IsCounted : (d : Delivery Float) → IsCounted d → IsCounted (shutdown fl supply d)
  unfolding shutdown
  shutdown-IsCounted d c =
      clear_all-IsCounted fl supply (iter_cloud_pending (shutdown_inflight fl supply d))
        (shutdown_inflight fl supply d) (inflight_cleared d c)
    where
      inflight_cleared :
          (d : Delivery Float) → IsCounted d → IsCounted (shutdown_inflight fl supply d)
      inflight_cleared d c = keep-option IsCounted d.inflight_key c λ k.
          keep-option IsCounted d.inflight_device_id c
            λ device. record { at = (queued-IsCounted fl supply session_cleared k.0 k.1 [] d c).at }

  clear_session-IsCounted :
      (session : Text) (d : Delivery Float)
      → IsCounted d
      → IsCounted (clear_session fl supply session d)
  unfolding clear_session
  clear_session-IsCounted session d c =
      keep-option IsCounted (Dict.get session d.session_inflight) c λ i. record {
        at = (queued-IsCounted fl supply session_cleared i.table i.key session d c).at;
      }

  expire_inflight-IsCounted :
      (now : ℕ) (session : Text) (d : Delivery Float)
      → IsCounted d
      → IsCounted (expire_inflight fl supply now session d)
  unfolding expire_inflight
  expire_inflight-IsCounted now session d c = keep-option IsCounted d.inflight_key c λ k.
      keep-option IsCounted d.inflight_since c λ since.
        keep-if IsCounted (leb (since + d.inflight_timeout) now)
          (record { at = (queued-IsCounted fl supply timeout k.0 k.1 session d c).at }) c

  expire_session-IsCounted :
      (now : ℕ) (session : Option Text) (d : Delivery Float)
      → IsCounted d
      → IsCounted (expire_session fl supply now session d).0
  unfolding expire_session
  expire_session-IsCounted now none d c = c
  expire_session-IsCounted now (some session) d c =
      keep-option (λ (r : Delivery Float × Bool). IsCounted r.0)
        (Dict.get session d.session_inflight) c
        λ i.
          keep-if (λ (r : Delivery Float × Bool). IsCounted r.0)
            (leb (i.since + d.inflight_timeout) now)
            (record { at = (queued-IsCounted fl supply timeout i.table i.key session d c).at }) c

  deliver_first-IsCounted :
      (now : ℕ) (device : Text) (session : Option Text) (l : List (TwinSetting Float))
      (d : Delivery Float)
      → IsCounted d
      → IsCounted (deliver_first fl supply now device session l d).0
  unfolding deliver_first
  deliver_first-IsCounted now device session [] d c = c
  deliver_first-IsCounted now device session (s ∷ ss) d c =
      plain-IsCounted fl supply deliver_selected s device (session_text session)
        (mark_inflight fl supply now device session s d) (record { at = c.at })

  deliver_next-IsCounted :
      (now : ℕ) (device : Text) (session : Option Text) (waits : Bool) (k : Option (Text × Text))
      (d : Delivery Float)
      → IsCounted d
      → IsCounted (deliver_next fl supply now device session waits k d).0
  unfolding deliver_next
  deliver_next-IsCounted now device session true k d c = c
  deliver_next-IsCounted now device session false (some k) d c = c
  deliver_next-IsCounted now device session false none d c =
      deliver_first-IsCounted now device session (Queue.get_pending d.twin_queue) d c

  deliver-IsCounted :
      (t t' t'' : ℕ) (device : Text) (session : Option Text) (d : Delivery Float)
      → IsCounted d
      → IsCounted (deliver_pending fl supply t t' t'' device session d).0
  unfolding deliver_pending
  deliver-IsCounted t t' t'' device session d c =
      let d' = expire_inflight fl supply t (session_text session) d in
      let (d'', waits) = expire_session fl supply t' session d' in
      deliver_next-IsCounted t'' device session waits d''.inflight_key d'' (
        expire_session-IsCounted t' session d'
          (expire_inflight-IsCounted t (session_text session) d c))

  acknowledge-IsCounted :
      (table key : Text) (session : Option Text) (d : Delivery Float)
      → IsCounted d
      → IsCounted (acknowledge table key session d).0
  acknowledge-IsCounted table key session d c =
      IsCounted-same (acknowledge table key session d).0 d
        (acknowledge-SameAudit table key session d) c

  begin-IsCounted :
      (e w m : ℕ) (device table key : Text) (v : Value Float) (raw : Text) (msg set : ℤ) (cf : Text)
      (d : Delivery Float)
      → IsCounted d
      → IsCounted (begin_cloud_setting fl supply e w m device table key v raw msg set cf d)
  unfolding begin_cloud_setting make_incoming_record is_terminal
  begin-IsCounted e w m device table key v raw msg set cf d c =
      let c' = expire-IsCounted fl supply e d c in record { at = λ id. ground (arith, c'.at id) }

  mark-IsCounted :
      (e at : ℕ) (device session : Text) (d : Delivery Float)
      → IsCounted d
      → IsCounted (mark_cloud_reason_setting fl supply e at device session d).0
  unfolding mark_cloud_reason_setting
  mark-IsCounted e at device session d c =
      let d' = expire_cloud_pending fl supply e d in
      let c' = expire-IsCounted fl supply e d c in
      keep-option (λ (r : Delivery Float × Option (TwinSetting Float × Text)). IsCounted r.0)
        (oldest_cloud_pending (some device) d') c'
        λ p. keep-if IsCounted p.reason_setting_seen c' (record {
          at = (reason-IsCounted fl supply p.setting p.device_id session false d' c').at;
        })

  match-IsCounted :
      (e : ℕ) (device table key : Text) (v : Value Float) (session : Text) (d : Delivery Float)
      → IsCounted d
      → IsCounted (match_cloud_tbl_events fl supply e device table key v session d).0
  unfolding match_cloud_tbl_events
  match-IsCounted e device table key v session d c =
      let d' = expire_cloud_pending fl supply e d in
      let c' = expire-IsCounted fl supply e d c in
      keep-option (λ (r : Delivery Float × Option (TwinSetting Float × Text)). IsCounted r.0)
        (Dict.get (device, (table, key)) d'.cloud_pending) c'
        λ ps.
          matched (pick_match (normalize_value_for_text fl) (normalize_value_for_text fl v) ps) d'
            c'
    where
      matched :
          (o : Option (CloudPending Float)) (d : Delivery Float)
          → IsCounted d
          → IsCounted (confirm_match fl supply v session o d).0
      matched none d c = c
      matched (some p) d c = remove-IsCounted p _ (
          record_audit_step-IsCounted fl supply p.setting p.device_id ack_tbl_events none v none
            session d c)

  clear_legacy-IsCounted :
      (now : ℕ) (d : Delivery Float)
      → IsCounted d
      → IsCounted (clear_cloud_inflight fl supply now d)
  unfolding clear_cloud_inflight
  clear_legacy-IsCounted now d c =
      expire-IsCounted fl supply now (record d { cloud_legacy_inflight = false })
        (record { at = c.at })

  perform-IsCounted :
      (x : Call Float) (d : Delivery Float) → IsCounted d → IsCounted (perform fl supply x d)
  unfolding perform
  perform-IsCounted (enqueue r table key v cf a raw) d c = record { at = c.at }
  perform-IsCounted (record_step s device step r v raw session) d c =
      record_audit_step-IsCounted fl supply s device step r v raw session d c
  perform-IsCounted (expire now) d c = expire-IsCounted fl supply now d c
  perform-IsCounted (deliver t t' t'' device session) d c =
      deliver-IsCounted t t' t'' device session d c
  perform-IsCounted (confirm table key session) d c = acknowledge-IsCounted table key session d c
  perform-IsCounted (end_session session) d c = clear_session-IsCounted session d c
  perform-IsCounted stop d c = shutdown-IsCounted d c
  perform-IsCounted (begin_cloud e w m device table key v raw msg set cf) d c =
      begin-IsCounted e w m device table key v raw msg set cf d c
  perform-IsCounted (mark_cloud e at device session) d c = mark-IsCounted e at device session d c
  perform-IsCounted (match_cloud e device table key v session) d c =
      match-IsCounted e device table key v session d c
  perform-IsCounted set_legacy d c = unfold set_cloud_inflight in record { at = c.at }
  perform-IsCounted (clear_legacy now) d c = clear_legacy-IsCounted now d c
  perform-IsCounted (see_id_set n) d c = unfold observe_id_set in record { at = c.at }
  perform-IsCounted (see_msg_id n) d c = unfold observe_msg_id in record { at = c.at }
  perform-IsCounted (take_id_set epoch) d c = unfold next_id_set in record { at = c.at }
  perform-IsCounted (take_msg_id random) d c = unfold next_msg_id in record { at = c.at }

  perform_all-IsCounted :
      (xs : List (Call Float)) (d : Delivery Float)
      → IsCounted d
      → IsCounted (perform_all fl supply xs d)
  unfolding perform_all
  perform_all-IsCounted [] d c = c
  perform_all-IsCounted (x ∷ xs) d c =
      perform_all-IsCounted xs (perform fl supply x d) (perform-IsCounted x d c)

  new-IsCounted :
      (q : TwinQueue Float) (limit : ℕ) (collector : Bool) (t : Tracking)
      → IsCounted (new_delivery q limit collector t)
  unfolding new_delivery Dict.get
  new-IsCounted q limit collector t = record { at = λ id. zero-le }

  -- Whatever calls are made on a new delivery, in any order and at any times, the collector gets
  -- at most three records that report the end of a setting's life under one audit id.
  pub closings-at_most_three :
      (q : TwinQueue Float) (limit : ℕ) (collector : Bool) (t : Tracking)
      (calls : List (Call Float)) (id : Text)
      → closings id (perform_all fl supply calls (new_delivery q limit collector t)).emitted ≤ 3
  closings-at_most_three q limit collector t calls id =
      let d = perform_all fl supply calls (new_delivery q limit collector t) in
      omega (
        arith,
        (perform_all-IsCounted calls (new_delivery q limit collector t)
              (new-IsCounted q limit collector t)).at
            id,
        rank-le (Dict.get id d.recorded_terminal),
      )
