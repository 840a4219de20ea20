-- ===== src/Server/Acks.antt =====
-- proxy/server.py: `_handle_twin_frames` and `_deliver_pending_for_isnewset`.
use oig_proxy.Common.{
  ℕ, Bool, true, false, not, ◌&&◌, ◌||◌, Option, none, some, [], ◌∷◌, Text, codes, ◌==◌, text_eq,
  pair_eq, if◌then◌else◌,
}
use oig_proxy.Common.Dict
use oig_proxy.Common.Dict.{Dict}
use oig_proxy.Common.Decimal.{ℤ, pos}
use oig_proxy.Values.{Floats, Value, str}
use oig_proxy.Audit.Records.{Draw}
use oig_proxy.Queue.{TwinSetting}
use oig_proxy.Frame.Crc.{Bytes}
use oig_proxy.Frame.Build.{build_frame}
use oig_proxy.Frame.Setting.{build_setting_xml}
use oig_proxy.Frame.Parse.{parse_xml_frame}
use oig_proxy.Frame.Ack.{
  AckResult, ack, end_result, nack, BoxAck, EventAck, parse_box_ack, parse_tbl_events_ack,
}
use oig_proxy.Delivery.State.{
  Delivery, record_injected_box, record_ack_box_observed, record_ack_tbl_events,
  record_ack_reason_setting, record_nack,
}
use oig_proxy.Delivery.Follow.{match_cloud_tbl_events, mark_cloud_reason_setting}
use oig_proxy.Delivery.Local.{acknowledge, deliver_pending, inflight_setting, session_text}
use oig_proxy.Delivery.Counters.{next_id_set}
use oig_proxy.Server.Frames.{text_or_empty, effective_table_name}
use oig_proxy.Server.State.{ProxyServer, Readings}

abbrev pub is_ack : AckResult → Bool
is_ack ack = true
is_ack end_result = false
is_ack nack = false

abbrev pub is_nack : AckResult → Bool
is_nack ack = false
is_nack end_result = false
is_nack nack = true

-- The setting is the one of that table and key.
unfoldable pub is_of : {F : Type 0} → Text → Text → TwinSetting F → Bool
is_of table key s = s.table == table && s.key == key

-- What `inflight_setting` returns: the setting in flight, and its device.
abbrev pub InFlight : Type 0 → Type 0
InFlight F = Option (TwinSetting F × Text)

module _ {F : Type 0} where
  unfoldable pub with_delivery : Delivery F → ProxyServer F → ProxyServer F
  with_delivery d s = record s { twin_delivery = d }

  unfoldable pub publish_confirmed_setting :
      (device table key : Text) → Value F → ProxyServer F → ProxyServer F
  publish_confirmed_setting device table key value s =
      if not s.has_on_confirmed_setting || device == [] then s else record s {
        confirmed =
            record { device_id = device; table = table; key = key; value = value } ∷ s.confirmed;
      }

module _ (fl : Floats) (supply : ℕ → Draw) where
  open fl use {Float}

  -- the acknowledgement that names a table and what is to be done
  unfoldable pub observe_ack :
      Option Text → InFlight Float → (table todo : Text) → Delivery Float → Delivery Float
  unfolding acknowledge record_ack_box_observed is_of
  observe_ack session none table todo d = (acknowledge table todo session d).0
  observe_ack session (some (s, device)) table todo d =
      if is_of table todo s
      then record_ack_box_observed fl supply s device (session_text session) d
      else (acknowledge table todo session d).0

  unfoldable pub observe_box_ack :
      Option Text → InFlight Float → Option BoxAck → Delivery Float → Delivery Float
  unfolding observe_ack
  observe_box_ack session pair none d = d
  observe_box_ack session pair (some a) d = elim a.table [
    | none ↦ d
    | some table ↦ elim a.todo [
      | none ↦ d
      | some todo ↦ if is_ack a.result then observe_ack session pair table todo d else d
    ]
  ]

  -- an event that confirms no setting of the cloud
  unfoldable pub confirm_event :
      Option Text → InFlight Float → EventAck → Delivery Float → Delivery Float
  unfolding acknowledge record_ack_tbl_events is_of
  confirm_event session none e d = (acknowledge e.table e.key session d).0
  confirm_event session (some (s, device)) e d =
      if is_of e.table e.key s
      then (acknowledge e.table e.key session
          (record_ack_tbl_events fl supply s device (str e.value) (session_text session) d)).0
      else (acknowledge e.table e.key session d).0

  unfoldable pub observe_event :
      Readings
      → (device : Text) → Option Text
      → InFlight Float
      → Option EventAck
      → ProxyServer Float
      → ProxyServer Float
  unfolding publish_confirmed_setting match_cloud_tbl_events confirm_event with_delivery
  observe_event r device session pair none s = s
  observe_event r device session pair (some e) s =
      let s' = publish_confirmed_setting device e.table e.key (str e.value) s in
      let (d, cloud_pair) =
        match_cloud_tbl_events fl supply r.match_at device e.table e.key (str e.value)
          (session_text session) s'.twin_delivery in
      elim cloud_pair [
        | some p ↦ with_delivery d s'
        | none ↦ with_delivery (confirm_event session pair e d) s'
      ]

  -- the setting in flight, of the queue, that an acknowledgement for the reason Setting confirms
  unfoldable pub confirm_inflight :
      Option Text → InFlight Float → (published : Bool) → ProxyServer Float → ProxyServer Float
  unfolding publish_confirmed_setting record_ack_reason_setting acknowledge with_delivery
  confirm_inflight session none published s = s
  confirm_inflight session (some (x, device)) published s =
      let s' = if published then s else publish_confirmed_setting device x.table x.key x.value s in
      with_delivery
        ((acknowledge x.table x.key session (
          record_ack_reason_setting fl supply x device (session_text session) true
            s'.twin_delivery)).0)
        s'

  unfoldable pub is_setting_ack : Option BoxAck → Bool
  is_setting_ack none = false
  is_setting_ack (some a) =
      is_ack a.result && elim a.reason [ none ↦ false | some t ↦ t == codes "Setting" ]

  unfoldable pub observe_reason :
      Readings
      → (device : Text) → Option Text
      → InFlight Float
      → (published : Bool) → ProxyServer Float
      → ProxyServer Float
  unfolding mark_cloud_reason_setting confirm_inflight with_delivery
  observe_reason r device session pair published s =
      let (d, cloud_pair) =
        mark_cloud_reason_setting fl supply r.mark_at.0 r.mark_at.1 device (session_text session)
          s.twin_delivery in
      elim cloud_pair [
        | some p ↦ with_delivery d s
        | none ↦ confirm_inflight session pair published (with_delivery d s)
      ]

  unfoldable pub is_box_nack : Option BoxAck → Bool
  is_box_nack none = false
  is_box_nack (some a) = is_nack a.result

  unfoldable pub refuse_inflight : Option Text → InFlight Float → Delivery Float → Delivery Float
  unfolding record_nack acknowledge
  refuse_inflight session none d = d
  refuse_inflight session (some (x, device)) d =
      (acknowledge x.table x.key session
        (record_nack fl supply x device (session_text session) d)).0

  unfoldable pub has_event : Option EventAck → Bool
  has_event none = false
  has_event (some e) = true

  -- The handling of a frame's acknowledgements, once they and the setting in flight are known.
  unfoldable pub handle_acks :
      Readings
      → (device : Text) → Option Text
      → InFlight Float
      → Option BoxAck
      → Option EventAck
      → ProxyServer Float
      → ProxyServer Float
  unfolding observe_box_ack observe_event observe_reason refuse_inflight is_setting_ack is_box_nack
      has_event with_delivery
  handle_acks r device session pair a e s =
      let s1 = with_delivery (observe_box_ack session pair a s.twin_delivery) s in
      let s2 = observe_event r device session pair e s1 in
      let s3 =
        if is_setting_ack a then observe_reason r device session pair (has_event e) s2 else s2 in
      if is_box_nack a then with_delivery (refuse_inflight session pair s3.twin_delivery) s3 else s3

  module _ (decode : Bytes → Text) (read_int : Text → Option ℤ)
      (render_local render_utc : ℤ → Bytes) where
    -- `_deliver_pending_for_isnewset`. A setting that the box does not take is not recorded.
    unfoldable pub deliver_pending_for_isnewset :
        Readings → (device : Text) → ProxyServer Float → ProxyServer Float
    unfolding deliver_pending next_id_set build_setting_xml build_frame record_injected_box
        with_delivery
    deliver_pending_for_isnewset r device s =
        let (d, pending) =
          deliver_pending fl supply r.deliver.0 r.deliver.1.0 r.deliver.1.1 device none
            s.twin_delivery in
        elim pending [
          | none ↦ with_delivery d s
          | some x ↦
              let (d', id_set) = next_id_set r.epoch d in
              let frame =
                build_frame
                  (build_setting_xml fl render_local render_utc r.setting_now r.setting_random
                    r.setting_ver x.table x.key x.value device id_set (pos 0) (codes "New"))
                  true in
              if r.setting_sent
              then record s {
                twin_delivery = record_injected_box fl supply x device [] d';
                to_box = frame ∷ s.to_box;
              }
              else with_delivery d' s
        ]

    -- the device that a frame names
    unfoldable pub frame_device : Dict Text (Value Float) → Text
    unfolding text_or_empty Dict.get
    frame_device parsed = text_or_empty fl (Dict.get (codes "_device_id") parsed)

    -- `box_writer` is there in all calls of the program.
    unfoldable pub handle_twin_frames :
        Readings
        → Option Text
        → (run_isnewset_hook : Bool) → Bytes
        → ProxyServer Float
        → ProxyServer Float
    unfolding parse_xml_frame effective_table_name frame_device deliver_pending_for_isnewset
        inflight_setting parse_box_ack parse_tbl_events_ack handle_acks with_delivery
    handle_twin_frames r session hook frame s =
        let text = decode frame in
        let parsed = parse_xml_frame fl read_int text in
        let device = frame_device parsed in
        let s' =
          if hook && effective_table_name fl parsed text == codes "IsNewSet"
          then deliver_pending_for_isnewset r device s
          else s in
        let (d, pair) = inflight_setting fl supply r.inflight_at s'.twin_delivery in
        if not s.has_twin_delivery
        then s
        else handle_acks r device session pair (parse_box_ack text) (parse_tbl_events_ack parsed)
            (with_delivery d s')
