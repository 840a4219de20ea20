-- ===== src/Delivery/Follow.antt =====
-- The methods that follow a setting of the cloud from its arrival to its confirmation or expiry.
use oig_proxy.Common.{
  ℕ, ◌+◌, Bool, true, false, not, ◌||◌, Option, none, some, List, [], ◌∷◌, ◌++◌, leb, Text, text_eq,
  pair_eq, if◌then◌else◌,
}
use oig_proxy.Common.Dict
use oig_proxy.Common.Decimal.{ℤ}
use oig_proxy.Values.{Floats, Value, normalize_value_for_text}
use oig_proxy.Audit.Steps.{timeout, session_cleared}
use oig_proxy.Audit.Records.{Draw, make_incoming_record}
use oig_proxy.Queue.{TwinSetting}
use oig_proxy.Delivery.State.{
  CloudPending, Delivery, record_plain, record_ack_reason_setting, record_ack_tbl_events,
}
use oig_proxy.Delivery.Cloud.{
  cloud_pending_key, iter_cloud_pending, remove_cloud_pending, oldest_cloud_pending, update_pending,
  pick_match,
}

abbrev pub is_empty : {A : Type 0} → List A → Bool
is_empty [] = true
is_empty (p ∷ ps) = false

module _ (fl : Floats) (supply : ℕ → Draw) where
  open fl use {Float}

  -- one round of the loop of `_expire_cloud_pending`
  unfoldable pub expire_one : ℕ → CloudPending Float → Delivery Float → Delivery Float
  unfolding record_plain record_ack_reason_setting remove_cloud_pending
  expire_one now p d =
      let waits = λ (at : ℕ).
        if leb (at + d.inflight_timeout) now
        then remove_cloud_pending p
            (record_ack_reason_setting fl supply p.setting p.device_id [] true d)
        else d in
      let plain =
        if leb (p.tracked_at + d.inflight_timeout) now
        then remove_cloud_pending p (record_plain fl supply timeout p.setting p.device_id [] d)
        else d in
      if p.reason_setting_seen
      then elim p.reason_setting_at [ none ↦ plain | some at ↦ waits at ]
      else plain

  unfoldable pub expire_all : ℕ → List (CloudPending Float) → Delivery Float → Delivery Float
  unfolding expire_one
  expire_all now [] d = d
  expire_all now (p ∷ ps) d = expire_all now ps (expire_one now p d)

  unfoldable pub expire_cloud_pending : ℕ → Delivery Float → Delivery Float
  unfolding expire_all iter_cloud_pending
  expire_cloud_pending now d = expire_all now (iter_cloud_pending d) d

  -- the loop of `shutdown` over the settings of the cloud
  unfoldable pub clear_all : List (CloudPending Float) → Delivery Float → Delivery Float
  unfolding record_plain remove_cloud_pending
  clear_all [] d = d
  clear_all (p ∷ ps) d =
      clear_all ps
        (remove_cloud_pending p (record_plain fl supply session_cleared p.setting p.device_id [] d))

  -- the append to `_cloud_pending[queue_key]`, a `defaultdict(deque)`
  unfoldable pub track : CloudPending Float → Delivery Float → Delivery Float
  track p d =
      let k = cloud_pending_key p in
      let ps : List (CloudPending Float) = elim (Dict.get k d.cloud_pending) [
        | none ↦ []
        | some ps ↦ ps
      ] in
      record d { cloud_pending = Dict.put k (ps ++ p ∷ []) d.cloud_pending; made = d.made + 1 }

  -- `begin_cloud_setting`; the readings are of the two clocks, at the expiry, at `enqueued_at` and
  -- at `tracked_at`.
  unfoldable pub begin_cloud_setting :
      (expiry wall mono : ℕ) (device table key : Text)
      → Value Float
      → (raw_text : Text) (msg_id id_set : ℤ) (confirm : Text) → Delivery Float
      → Delivery Float
  unfolding expire_cloud_pending track
  begin_cloud_setting expiry wall mono device table key value raw_text msg_id id_set confirm d =
      let d' = expire_cloud_pending expiry d in
      let (r, t) =
        make_incoming_record fl (supply d'.drawn) device table key raw_text value [] msg_id id_set
          d'.tracking in
      let recorded = record d' {
        tracking = t;
        drawn = d'.drawn + 1;
        emitted = if d'.has_collector then r ∷ d'.emitted else d'.emitted;
      } in
      let setting : TwinSetting Float = record {
        table = table;
        key = key;
        value = value;
        enqueued_at = wall;
        raw_text = r.raw_text;
        audit_id = r.audit_id;
        msg_id = msg_id;
        id_set = id_set;
        confirm = confirm;
      } in
      track
        (record {
          uid = recorded.made;
          setting = setting;
          device_id = device;
          tracked_at = mono;
          reason_setting_seen = false;
          reason_setting_at = none;
        })
        recorded

  unfoldable pub mark_seen : ℕ → CloudPending Float → Text → Delivery Float → Delivery Float
  unfolding record_ack_reason_setting update_pending
  mark_seen at p session d =
      if p.reason_setting_seen
      then d
      else let d' = record_ack_reason_setting fl supply p.setting p.device_id session false d in
        record d' {
          cloud_pending =
              update_pending p.uid
                (λ q. record q { reason_setting_seen = true; reason_setting_at = some at })
                d'.cloud_pending;
        }

  unfoldable pub mark_cloud_reason_setting :
      (expiry at : ℕ) (device session : Text)
      → Delivery Float
      → Delivery Float × Option (TwinSetting Float × Text)
  unfolding expire_cloud_pending oldest_cloud_pending mark_seen
  mark_cloud_reason_setting expiry at device session d =
      let d' = expire_cloud_pending expiry d in
      elim (oldest_cloud_pending (some device) d') [
        | none ↦ (d', none)
        | some p ↦ (mark_seen at p session d', some (p.setting, p.device_id))
      ]

  unfoldable pub confirm_match :
      Value Float
      → Text
      → Option (CloudPending Float)
      → Delivery Float
      → Delivery Float × Option (TwinSetting Float × Text)
  unfolding record_ack_tbl_events remove_cloud_pending
  confirm_match confirmed_value session none d = (d, none)
  confirm_match confirmed_value session (some p) d = (
    remove_cloud_pending p
        (record_ack_tbl_events fl supply p.setting p.device_id confirmed_value session d),
    some (p.setting, p.device_id),
  )

  unfoldable pub match_cloud_tbl_events :
      (expiry : ℕ) (device table key : Text)
      → Value Float
      → Text
      → Delivery Float
      → Delivery Float × Option (TwinSetting Float × Text)
  unfolding expire_cloud_pending pick_match confirm_match
  match_cloud_tbl_events expiry device table key confirmed_value session d =
      let d' = expire_cloud_pending expiry d in
      let show = normalize_value_for_text fl in
      elim (Dict.get (device, (table, key)) d'.cloud_pending) [
        | none ↦ (d', none)
        | some ps ↦
            confirm_match confirmed_value session (pick_match show (show confirmed_value) ps) d'
      ]

  unfoldable pub set_cloud_inflight : Delivery Float → Delivery Float
  set_cloud_inflight d = record d { cloud_legacy_inflight = true }

  unfoldable pub clear_cloud_inflight : ℕ → Delivery Float → Delivery Float
  unfolding expire_cloud_pending
  clear_cloud_inflight now d = expire_cloud_pending now (record d { cloud_legacy_inflight = false })

  unfoldable pub is_cloud_inflight : ℕ → Delivery Float → Delivery Float × Bool
  unfolding expire_cloud_pending iter_cloud_pending
  is_cloud_inflight now d =
      let d' = expire_cloud_pending now d in
      (d', d'.cloud_legacy_inflight || not (is_empty (iter_cloud_pending d')))
