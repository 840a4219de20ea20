-- ===== src/Delivery/Local.antt =====
-- The settings of the local queue: delivery to the box, acknowledgement and clearing.
use oig_proxy.Common.{
  ℕ, ◌+◌, Bool, true, false, not, ◌&&◌, ◌||◌, Option, none, some, List, [], ◌∷◌, leb, ltb, Text,
  ◌==◌, text_eq, pair_eq, if◌then◌else◌,
}
use oig_proxy.Common.Dict
use oig_proxy.Values.{Floats}
use oig_proxy.Audit.Steps.{SettingStep, timeout, deliver_selected, session_cleared}
use oig_proxy.Audit.Records.{Draw}
use oig_proxy.Queue
use oig_proxy.Queue.{TwinSetting}
use oig_proxy.Delivery.State.{CloudPending, Delivery, record_plain}
use oig_proxy.Delivery.Cloud.{iter_cloud_pending, remove_cloud_pending, oldest_cloud_pending}
use oig_proxy.Delivery.Follow.{expire_cloud_pending, clear_all, is_empty}

abbrev is_some : {A : Type 0} → Option A → Bool
is_some none = false
is_some (some a) = true

abbrev pub session_text : Option Text → Text
session_text none = []
session_text (some s) = s

module _ {F : Type 0} where
  unfoldable pub clear_global_inflight : Delivery F → Delivery F
  clear_global_inflight d = record d {
    inflight_key = none;
    inflight_device_id = none;
    inflight_since = none;
  }

  unfoldable pub drop_session : Text → Delivery F → Delivery F
  drop_session session d = record d { session_inflight = Dict.erase session d.session_inflight }

  -- `self._twin_queue.acknowledge`
  unfoldable pub queue_acknowledge : Text → Text → Delivery F → Delivery F × Bool
  unfolding Queue.acknowledge
  queue_acknowledge table key d =
      let (q, removed) = Queue.acknowledge table key d.twin_queue in
      (record d { twin_queue = q }, removed)

  -- the removal from `_session_inflight` at the start of `acknowledge`
  unfoldable pub acknowledge_session : Text → Text → Option Text → Delivery F → Delivery F
  unfolding drop_session
  acknowledge_session table key none d = d
  acknowledge_session table key (some session) d = elim (Dict.get session d.session_inflight) [
    | none ↦ d
    | some i ↦ if i.table == table && i.key == key then drop_session session d else d
  ]

  -- `self._inflight_key == (table, key)`: neither the sessions nor the cloud are looked at.
  unfoldable pub is_inflight_key : Text → Text → Delivery F → Bool
  is_inflight_key table key d = elim d.inflight_key [
    | none ↦ false
    | some k ↦ k.0 == table && k.1 == key
  ]

  -- the first setting of the cloud for that table and key
  unfoldable pub first_cloud : Text → Text → List (CloudPending F) → Option (CloudPending F)
  first_cloud table key [] = none
  first_cloud table key (p ∷ ps) =
      let rest = first_cloud table key ps in
      if p.setting.table == table && p.setting.key == key then some p else rest

  unfoldable pub acknowledge_cloud : Text → Text → Delivery F → Delivery F × Bool
  unfolding first_cloud iter_cloud_pending remove_cloud_pending
  acknowledge_cloud table key d = elim (first_cloud table key (iter_cloud_pending d)) [
    | none ↦ (d, false)
    | some p ↦ (remove_cloud_pending p d, true)
  ]

  unfoldable pub acknowledge : Text → Text → Option Text → Delivery F → Delivery F × Bool
  unfolding acknowledge_session is_inflight_key queue_acknowledge clear_global_inflight
      acknowledge_cloud
  acknowledge table key session d =
      let d' = acknowledge_session table key session d in
      if is_inflight_key table key d'
      then ((queue_acknowledge table key (clear_global_inflight d')).0, true)
      else let (d'', removed) = queue_acknowledge table key d' in
        if removed then (d'', true) else acknowledge_cloud table key d''

  unfoldable pub has_pending : Delivery F → Bool
  unfolding Queue.size
  has_pending d = ltb 0 (Queue.size d.twin_queue)

module _ (fl : Floats) (supply : ℕ → Draw) where
  open fl use {Float}

  -- a step that is recorded if the queue still holds the setting and a device is set
  unfoldable pub record_queued : SettingStep → Text → Text → Text → Delivery Float → Delivery Float
  unfolding record_plain Queue.get
  record_queued step table key session d = elim (Queue.get table key d.twin_queue) [
    | none ↦ d
    | some s ↦ elim d.inflight_device_id [
      | none ↦ d
      | some device ↦ record_plain fl supply step s device session d
    ]
  ]

  -- the first block of `deliver_pending`: the timeout of the setting in flight
  unfoldable pub expire_inflight : ℕ → Text → Delivery Float → Delivery Float
  unfolding record_queued queue_acknowledge clear_global_inflight
  expire_inflight now session d = elim d.inflight_key [
    | none ↦ d
    | some k ↦ elim d.inflight_since [
      | none ↦ d
      | some since ↦
          if leb (since + d.inflight_timeout) now
          then clear_global_inflight
              ((queue_acknowledge k.0 k.1 (record_queued timeout k.0 k.1 session d)).0)
          else d
    ]
  ]

  -- the second block; the flag tells that the session waits for its setting, so nothing is
  -- delivered
  unfoldable pub expire_session : ℕ → Option Text → Delivery Float → Delivery Float × Bool
  unfolding record_queued drop_session
  expire_session now none d = (d, false)
  expire_session now (some session) d = elim (Dict.get session d.session_inflight) [
    | none ↦ (d, false)
    | some i ↦
        if leb (i.since + d.inflight_timeout) now
        then (drop_session session (record_queued timeout i.table i.key session d), false)
        else (d, true)
  ]

  -- the last block: the setting is marked as in flight
  unfoldable pub mark_inflight :
      ℕ → Text → Option Text → TwinSetting Float → Delivery Float → Delivery Float
  mark_inflight now device session s d = record d {
    inflight_key = some (s.table, s.key);
    inflight_device_id = some device;
    inflight_since = some now;
    session_inflight = elim session [
      | none ↦ d.session_inflight
      | some id ↦
          Dict.put id (record { table = s.table; key = s.key; since = now }) d.session_inflight
    ];
  }

  unfoldable pub select :
      ℕ → Text → Option Text → TwinSetting Float → Delivery Float → Delivery Float
  unfolding record_plain mark_inflight
  select now device session s d =
      record_plain fl supply deliver_selected s device (session_text session)
        (mark_inflight now device session s d)

  unfoldable pub deliver_first :
      ℕ
      → Text
      → Option Text
      → List (TwinSetting Float)
      → Delivery Float
      → Delivery Float × Option (TwinSetting Float)
  unfolding select
  deliver_first now device session [] d = (d, none)
  deliver_first now device session (s ∷ ss) d = (select now device session s d, some s)

  -- what follows the two timeouts: whether the session waits, and the setting in flight
  unfoldable pub deliver_next :
      ℕ
      → Text
      → Option Text
      → Bool
      → Option (Text × Text)
      → Delivery Float
      → Delivery Float × Option (TwinSetting Float)
  unfolding deliver_first
  deliver_next now device session true k d = (d, none)
  deliver_next now device session false (some k) d = (d, none)
  deliver_next now device session false none d =
      deliver_first now device session (Queue.get_pending d.twin_queue) d

  -- The list that the source returns has one setting or none. The readings are those of the
  -- timeout, of the session's timeout and of the mark.
  unfoldable pub deliver_pending :
      (t t' t'' : ℕ) (device : Text) (session : Option Text)
      → Delivery Float
      → Delivery Float × Option (TwinSetting Float)
  unfolding expire_inflight expire_session deliver_next
  deliver_pending t t' t'' device session d =
      let d' = expire_inflight t (session_text session) d in
      let (d'', waits) = expire_session t' session d' in
      deliver_next t'' device session waits d''.inflight_key d''

  unfoldable pub clear_session : Text → Delivery Float → Delivery Float
  unfolding record_queued drop_session
  clear_session session d = elim (Dict.get session d.session_inflight) [
    | none ↦ d
    | some i ↦ drop_session session (record_queued session_cleared i.table i.key session d)
  ]

  unfoldable pub shutdown_inflight : Delivery Float → Delivery Float
  unfolding record_queued clear_global_inflight
  shutdown_inflight d = elim d.inflight_key [
    | none ↦ d
    | some k ↦ elim d.inflight_device_id [
      | none ↦ d
      | some device ↦ clear_global_inflight (record_queued session_cleared k.0 k.1 [] d)
    ]
  ]

  unfoldable pub shutdown : Delivery Float → Delivery Float
  unfolding shutdown_inflight clear_all iter_cloud_pending
  shutdown d = let d' = shutdown_inflight d in clear_all fl supply (iter_cloud_pending d') d'

  unfoldable pub inflight : ℕ → Delivery Float → Delivery Float × Option (Text × Text)
  unfolding expire_cloud_pending oldest_cloud_pending
  inflight now d =
      let d' = expire_cloud_pending fl supply now d in
      elim (oldest_cloud_pending none d') [
        | some p ↦ (d', some (p.setting.table, p.setting.key))
        | none ↦ (d', d'.inflight_key)
      ]

  unfoldable pub queued_inflight : Delivery Float → Option (TwinSetting Float × Text)
  unfolding Queue.get
  queued_inflight d = elim d.inflight_key [
    | none ↦ none
    | some k ↦ elim d.inflight_device_id [
      | none ↦ none
      | some device ↦ elim (Queue.get k.0 k.1 d.twin_queue) [
        | none ↦ none
        | some s ↦ some (s, device)
      ]
    ]
  ]

  unfoldable pub inflight_setting :
      ℕ → Delivery Float → Delivery Float × Option (TwinSetting Float × Text)
  unfolding expire_cloud_pending oldest_cloud_pending queued_inflight
  inflight_setting now d =
      let d' = expire_cloud_pending fl supply now d in
      elim (oldest_cloud_pending none d') [
        | some p ↦ (d', some (p.setting, p.device_id))
        | none ↦ (d', queued_inflight d')
      ]

  unfoldable pub has_pending_or_inflight : ℕ → Option Text → Delivery Float → Delivery Float × Bool
  unfolding expire_cloud_pending iter_cloud_pending has_pending
  has_pending_or_inflight now session d =
      let d' = expire_cloud_pending fl supply now d in
      (
        d',
        elim session [ none ↦ false | some id ↦ Dict.has id d'.session_inflight ]
            || d'.cloud_legacy_inflight
            || not (is_empty (iter_cloud_pending d'))
            || is_some d'.inflight_key
            || has_pending d',
      )
