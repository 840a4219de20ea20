-- ===== src/Handler.antt =====
-- twin/handler.py: `TwinControlHandler`, which takes control messages from MQTT. The queue and the
-- collector are those of `TwinDelivery`, and both count raw texts in the tracking of one module, so
-- all three stand in the state of the delivery.
pub mod Lemmas
pub mod Refusals
pub mod Admitted
use oig_proxy.Common.{
  ℕ, zero, suc, ◌+◌, Bool, true, false, not, ◌&&◌, ◌||◌, Option, none, some, List, [], ◌∷◌, ◌++◌,
  nat_beq, Text, codes, ◌==◌, text_eq, pair_eq, if◌then◌else◌,
}
use oig_proxy.Common.Dict
use oig_proxy.Common.Dict.{Dict}
use oig_proxy.Common.Decimal.{ℤ, pos}
use oig_proxy.Values.{Floats, Value, null, bool, int, float, str, other}
use oig_proxy.Constraints.{is_setting_allowed, Validated, accepted, refused, validate_setting_value}
use oig_proxy.Audit.Steps.{
  SettingStep, rejected_not_allowed, rejected_validation, superseded, enqueued, SettingResult,
  rejected, replaced,
}
use oig_proxy.Audit.Records.{
  Draw, SettingsAuditRecord, contains, make_incoming_record, make_step_record,
}
use oig_proxy.Queue
use oig_proxy.Queue.{TwinSetting, Draws}
use oig_proxy.Delivery.State.{Delivery}
use oig_proxy.Frame.LocalAck.{starts_with}

-- What `json.loads` makes of a payload.
pub data Json (F : Type 0) : Type 0 where
  malformed not_object : Json F
  object : Dict Text (Value F) → Json F

-- The handler, with the calls of its callback so far, the last one first.
pub record TwinControlHandler (F : Type 0) : Type 0 where
  pub device_id : Text
  pub namespace : Text
  pub proxy_control_handler : Option (Text → Text → Value F → Bool)
  pub subscribed : Bool
  -- the topics for which MQTT calls the handler
  pub topics : List Text
  pub controls : List (Text × (Text × Value F))

unfoldable pub topic : Text
topic = codes "oig/+/control/set"

unfoldable pub topic_compat : Text → Text
topic_compat namespace = namespace ++ codes "/+/set/#"

-- `unsubscribe`
remove_topic : Text → List Text → List Text
remove_topic t [] = []
remove_topic t (s ∷ ss) = let rest = remove_topic t ss in if s == t then rest else s ∷ rest

module _ {F : Type 0} where
  unfoldable pub start : (ready : Bool) → TwinControlHandler F → TwinControlHandler F
  unfolding topic topic_compat
  start ready h =
      if not ready
      then h
      else record h { subscribed = true; topics = topic_compat h.namespace ∷ topic ∷ h.topics }

  unfoldable pub stop : (ready : Bool) → TwinControlHandler F → TwinControlHandler F
  unfolding topic topic_compat remove_topic
  stop ready h =
      if h.subscribed && ready
      then record h {
        subscribed = false;
        topics = remove_topic (topic_compat h.namespace) (remove_topic topic h.topics);
      }
      else h

-- `topic.split("/")`: the first part, and the others
unfoldable pub split_path : Text → Text × List Text
split_path [] = ([], [])
split_path (c ∷ s) =
    let (part, others) = split_path s in
    if nat_beq c b'/' then ([], part ∷ others) else (c ∷ part, others)

-- The fourth and the fifth of at least five parts.
unfoldable pub table_and_key : Text × List Text → Option (Text × Text)
table_and_key (p0, p1 ∷ p2 ∷ table ∷ key ∷ rest) = some (table, key)
table_and_key (p0, p1 ∷ p2 ∷ p3 ∷ []) = none
table_and_key (p0, p1 ∷ p2 ∷ []) = none
table_and_key (p0, p1 ∷ []) = none
table_and_key (p0, []) = none

-- The table and the key that a topic of the second form names.
unfoldable pub named_by_topic : Text → Text → Option (Text × Text)
unfolding starts_with contains split_path table_and_key
named_by_topic namespace t =
    if starts_with (namespace ++ b'/' ∷ []) t && contains (codes "/set/") t
    then table_and_key (split_path t)
    else none

-- What a control message asks for.
pub record Request (F : Type 0) : Type 0 where
  pub table : Text
  pub key : Text
  pub value : Value F

unfoldable pub request_of :
    {F : Type 0} → Option (Value F) → Option (Value F) → Option (Value F) → Option (Request F)
request_of (some (str table)) (some (str key)) (some null) = none
request_of (some (str table)) (some (str key)) (some v) =
    some (record { table = table; key = key; value = v })
request_of (some (str table)) (some (str key)) none = none
request_of table key value = none

unfoldable pub request_of_json : {F : Type 0} → Json F → Option (Request F)
unfolding request_of Dict.get
request_of_json malformed = none
request_of_json not_object = none
request_of_json (object d) =
    request_of (Dict.get (codes "table") d) (Dict.get (codes "key") d) (Dict.get (codes "value") d)

-- The request of a message, by its topic or, for the others, by the object in its payload.
unfoldable pub request : {F : Type 0} → (Text → Json F) → Text → Text → Text → Option (Request F)
unfolding named_by_topic request_of_json
request read_json namespace t raw = elim (named_by_topic namespace t) [
  | some (table, key) ↦ some (record { table = table; key = key; value = str raw })
  | none ↦ request_of_json (read_json raw)
]

module _ (fl : Floats) (supply : ℕ → Draw) where
  open fl use {Float}

  -- `_record_setting_audit`
  unfoldable pub record_setting_audit : SettingsAuditRecord Float → Delivery Float → Delivery Float
  record_setting_audit r d = if d.has_collector then record d { emitted = r ∷ d.emitted } else d

  -- `make_incoming_record` with the handler's device
  unfoldable pub incoming_record :
      (device table key raw : Text)
      → Value Float
      → (msg_id id_set : ℤ) → Delivery Float
      → SettingsAuditRecord Float × Delivery Float
  incoming_record device table key raw value msg_id id_set d =
      let (r, t) =
        make_incoming_record fl (supply d.drawn) device table key raw value [] msg_id id_set
          d.tracking in
      (r, record d { tracking = t; drawn = d.drawn + 1 })

  -- a step record that is made and recorded
  unfoldable pub record_step :
      SettingsAuditRecord Float
      → SettingStep
      → Option SettingResult
      → (raw : Option Text) → (msg_id id_set : Option ℤ) → Delivery Float
      → Delivery Float
  unfolding record_setting_audit
  record_step parent step result raw msg_id id_set d =
      let (r, t) =
        make_step_record fl ((supply d.drawn).now) parent step result raw null none msg_id id_set
          d.tracking in
      record_setting_audit r (record d { tracking = t; drawn = d.drawn + 1 })

  -- `_make_pending_setting_record` and the step of a setting that is replaced
  unfoldable pub supersede : Text → TwinSetting Float → Delivery Float → Delivery Float
  unfolding incoming_record record_step
  supersede device s d =
      let (r, d') = incoming_record device s.table s.key s.raw_text s.value s.msg_id s.id_set d in
      record_step (record r { audit_id = s.audit_id }) superseded (some replaced) none none none d'

  unfoldable pub supersede_pending :
      Text → Option (TwinSetting Float) → Delivery Float → Delivery Float
  unfolding supersede
  supersede_pending device none d = d
  supersede_pending device (some s) d = if s.audit_id == [] then d else supersede device s d

  -- what is recorded of the setting that the queue holds afterwards
  unfoldable pub record_enqueued :
      SettingsAuditRecord Float → Option (TwinSetting Float) → Delivery Float → Delivery Float
  unfolding record_step
  record_enqueued r none d = record_step r enqueued none none none none d
  record_enqueued r (some s) d = record_step r enqueued none none (some s.msg_id) (some s.id_set) d

  -- The setting goes into the queue, in place of one that waits under its table and key.
  unfoldable pub enqueue_setting :
      Text
      → Draws
      → SettingsAuditRecord Float
      → (table key : Text) → Value Float
      → Delivery Float
      → Delivery Float
  unfolding supersede_pending record_enqueued Queue.get Queue.enqueue
  enqueue_setting device draws r table key normalized d =
      let d' = supersede_pending device (Queue.get table key d.twin_queue) d in
      let q =
        Queue.enqueue draws table key normalized (codes "New") r.audit_id r.raw_text
          d'.twin_queue in
      record_enqueued r (Queue.get table key q) (record d' { twin_queue = q })

  -- The callback for `proxy_control`: whether it took the setting, and the call in the handler.
  unfoldable pub proxy_control :
      (table key : Text) → Value Float → TwinControlHandler Float → TwinControlHandler Float × Bool
  proxy_control table key normalized h =
      if table == codes "proxy_control"
      then elim h.proxy_control_handler [
        | none ↦ (h, false)
        | some f ↦ (
          record h { controls = (table, (key, normalized)) ∷ h.controls },
          f table key normalized,
        )
      ]
      else (h, false)

  -- The setting as it was validated.
  unfoldable pub apply_accepted :
      Draws
      → SettingsAuditRecord Float
      → (table key : Text) → Value Float
      → TwinControlHandler Float
      → Delivery Float
      → TwinControlHandler Float × Delivery Float
  unfolding proxy_control enqueue_setting
  apply_accepted draws r table key normalized h d =
      let (h', handled) = proxy_control table key normalized h in
      if handled then (h', d) else (h', enqueue_setting h.device_id draws r table key normalized d)

  unfoldable pub apply_validated :
      Draws
      → SettingsAuditRecord Float
      → Text
      → Request Float
      → Validated fl
      → TwinControlHandler Float
      → Delivery Float
      → TwinControlHandler Float × Delivery Float
  unfolding record_step apply_accepted
  apply_validated draws r raw q (accepted v) h d = apply_accepted draws r q.table q.key v h d
  apply_validated draws r raw q (refused why) h d =
      (h, record_step r rejected_validation (some rejected) (some raw) none none d)

  -- What both forms of a message do with their table, key and value.
  unfoldable pub apply_request :
      Draws
      → (raw : Text) → Request Float
      → TwinControlHandler Float
      → Delivery Float
      → TwinControlHandler Float × Delivery Float
  unfolding incoming_record record_setting_audit record_step is_setting_allowed apply_validated
      validate_setting_value
  apply_request draws raw q h d =
      let (r, d') = incoming_record h.device_id q.table q.key raw q.value (pos 0) (pos 0) d in
      let d'' = record_setting_audit r d' in
      if not (is_setting_allowed q.table q.key)
      then (h, record_step r rejected_not_allowed (some rejected) (some raw) none none d'')
      else apply_validated draws r raw q (validate_setting_value fl q.table q.key q.value) h d''

  -- With the payload as a text. The errors that the last `except` catches come from code that is
  -- a parameter or an interface here, and do not occur.
  unfoldable pub on_message :
      (Text → Json Float)
      → Draws
      → (t raw : Text) → TwinControlHandler Float
      → Delivery Float
      → TwinControlHandler Float × Delivery Float
  unfolding request apply_request
  on_message read_json draws t raw h d = elim (request read_json h.namespace t raw) [
    | none ↦ (h, d)
    | some q ↦ apply_request draws raw q h d
  ]
