-- ===== src/Delivery/State.antt =====
-- The state of `TwinDelivery`, and the recording of audit steps.
use oig_proxy.Common.{
  ℕ, ◌+◌, Bool, false, not, ◌&&◌, ◌||◌, Option, none, some, List, [], ◌∷◌, Text, codes, ◌==◌,
  text_eq, pair_eq, if◌then◌else◌,
}
use oig_proxy.Common.Dict
use oig_proxy.Common.Dict.{Dict}
use oig_proxy.Common.Decimal.{ℤ}
use oig_proxy.Values.{Floats, Value, null}
use oig_proxy.Audit.Steps.{
  SettingStep, injected_box, ack_box_observed, ack_tbl_events, ack_reason_setting, nack,
  SettingResult, pending, confirmed, is_terminal, is_stronger_ack, is_final,
}
use oig_proxy.Audit.Limits.{Tracking}
use oig_proxy.Audit.Records.{Draw, SettingsAuditRecord, make_incoming_record, make_step_record}
use oig_proxy.Queue.{TwinSetting, TwinQueue}

-- `_CloudPendingSetting`; `uid` is the object's identity.
pub record CloudPending (F : Type 0) : Type 0 where
  pub uid : ℕ
  pub setting : TwinSetting F
  pub device_id : Text
  pub tracked_at : ℕ
  pub reason_setting_seen : Bool
  pub reason_setting_at : Option ℕ

-- An entry of `_session_inflight`.
pub record SessionInflight : Type 0 where
  pub table : Text
  pub key : Text
  pub since : ℕ

abbrev pub CloudKey : Type 0
CloudKey = Text × (Text × Text)

pub record Delivery (F : Type 0) : Type 0 where
  pub twin_queue : TwinQueue F
  pub inflight_timeout : ℕ
  pub has_collector : Bool
  pub cloud_pending : Dict CloudKey (List (CloudPending F))
  pub cloud_legacy_inflight : Bool
  pub session_inflight : Dict Text SessionInflight
  pub inflight_key : Option (Text × Text)
  pub inflight_device_id : Option Text
  pub inflight_since : Option ℕ
  pub last_seen_id_set : Option ℤ
  pub last_msg_id : Option ℤ
  pub recorded_terminal : Dict Text SettingStep
  -- the module's tracking of raw text
  pub tracking : Tracking
  -- the records given to the collector so far, the last one first
  pub emitted : List (SettingsAuditRecord F)
  -- how many draws were taken from the supply, and how many objects were made
  pub drawn : ℕ
  pub made : ℕ

unfoldable pub new_delivery : {F : Type 0} → TwinQueue F → ℕ → Bool → Tracking → Delivery F
new_delivery q timeout collector tracking = record {
  twin_queue = q;
  inflight_timeout = timeout;
  has_collector = collector;
  cloud_pending = [];
  cloud_legacy_inflight = false;
  session_inflight = [];
  inflight_key = none;
  inflight_device_id = none;
  inflight_since = none;
  last_seen_id_set = none;
  last_msg_id = none;
  recorded_terminal = [];
  tracking = tracking;
  emitted = [];
  drawn = 0;
  made = 0;
}

module _ (fl : Floats) (supply : ℕ → Draw) where
  open fl use {Float}

  -- `make_parent_record`: an incoming record under the setting's own audit id. The limits have
  -- been applied under the id that was drawn.
  unfoldable pub make_parent_record :
      TwinSetting Float → Text → Delivery Float → SettingsAuditRecord Float × Delivery Float
  make_parent_record s device d =
      let (r, t) =
        make_incoming_record fl (supply d.drawn) device s.table s.key s.raw_text s.value [] s.msg_id
          s.id_set d.tracking in
      (record r { audit_id = s.audit_id }, record d { tracking = t; drawn = d.drawn + 1 })

  -- the parts of `_record_audit_step` behind its guards
  unfoldable pub emit_step :
      TwinSetting Float
      → Text
      → SettingStep
      → Option SettingResult
      → Value Float
      → Option Text
      → Text
      → Delivery Float
      → Delivery Float
  unfolding make_parent_record
  emit_step s device step result confirmed_value raw session d =
      let (parent, d') = make_parent_record s device d in
      let (r, t) =
        make_step_record fl ((supply d.drawn).now) parent step result raw confirmed_value
          (some session) none none d'.tracking in
      record d' { tracking = t; emitted = r ∷ d'.emitted }

  -- A terminal step that is not stronger than the one recorded before is left out.
  unfoldable pub is_weaker : Text → SettingStep → Delivery Float → Bool
  is_weaker audit_id step d = elim (Dict.get audit_id d.recorded_terminal) [
    | none ↦ false
    | some existing ↦ not (is_stronger_ack step existing)
  ]

  unfoldable pub record_audit_step :
      TwinSetting Float
      → Text
      → SettingStep
      → Option SettingResult
      → Value Float
      → Option Text
      → Text
      → Delivery Float
      → Delivery Float
  unfolding emit_step is_weaker
  record_audit_step s device step result confirmed_value raw session d =
      if not d.has_collector || s.audit_id == codes ""
      then d
      else if is_terminal step && is_final result
      then if is_weaker s.audit_id step d
        then d
        else emit_step s device step result confirmed_value raw session
            (record d { recorded_terminal = Dict.put s.audit_id step d.recorded_terminal })
      else emit_step s device step result confirmed_value raw session d

  -- `_record_audit_step` with no more than a session id
  unfoldable pub record_plain :
      SettingStep → TwinSetting Float → Text → Text → Delivery Float → Delivery Float
  record_plain step s device session = record_audit_step s device step none null none session

  unfoldable pub record_injected_box :
      TwinSetting Float → Text → Text → Delivery Float → Delivery Float
  record_injected_box = record_plain injected_box

  unfoldable pub record_ack_box_observed :
      TwinSetting Float → Text → Text → Delivery Float → Delivery Float
  record_ack_box_observed = record_plain ack_box_observed

  unfoldable pub record_nack : TwinSetting Float → Text → Text → Delivery Float → Delivery Float
  record_nack = record_plain nack

  unfoldable pub record_ack_tbl_events :
      TwinSetting Float → Text → Value Float → Text → Delivery Float → Delivery Float
  record_ack_tbl_events s device confirmed_value session =
      record_audit_step s device ack_tbl_events none confirmed_value none session

  unfoldable pub record_ack_reason_setting :
      TwinSetting Float → Text → Text → Bool → Delivery Float → Delivery Float
  record_ack_reason_setting s device session terminal =
      record_audit_step s device ack_reason_setting (some (if terminal then confirmed else pending))
        null none session
