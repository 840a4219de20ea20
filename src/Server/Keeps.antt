-- ===== src/Server/Keeps.antt =====
-- What holds of the queue, and still holds when a setting is taken out of it, holds after every
-- frame that the server handles.
use oig_proxy.Common.{false}
use oig_proxy.Frame.Crc.{Bytes}
use oig_proxy.Frame.Ack.{parse_box_ack, parse_tbl_events_ack}
use oig_proxy.Frame.Parse.{parse_xml_frame}
use oig_proxy.Delivery.Follow.{is_cloud_inflight}
use oig_proxy.Delivery.Local.{has_pending}
use oig_proxy.Delivery.Counters.{observe_id_set, observe_msg_id}
use oig_proxy.Server.Acks.{handle_twin_frames, frame_device}
use oig_proxy.Server.Box.{process_frame, observe_ids, may_answer}
use oig_proxy.Common.{◌&&◌, not, if◌then◌else◌}
use oig_proxy.Common.Decimal.{ℤ}
use oig_proxy.Common.{ℕ, Bool, Option, none, some, Text, text_eq, pair_eq}
use oig_proxy.Common.Dict
use oig_proxy.Common.Dict.{Dict}
use oig_proxy.Common.Keeps.{keep-if, keep-option}
use oig_proxy.Values.{Floats, Value, str}
use oig_proxy.Audit.Records.{Draw}
use oig_proxy.Queue.{TwinSetting}
use oig_proxy.Frame.Ack.{BoxAck, EventAck}
use oig_proxy.Delivery.State.{
  Delivery, record_plain, record_ack_box_observed, record_ack_tbl_events, record_ack_reason_setting,
  record_nack,
}
use oig_proxy.Delivery.Cloud.{oldest_cloud_pending}
use oig_proxy.Delivery.Follow.{
  expire_cloud_pending, match_cloud_tbl_events, mark_cloud_reason_setting,
}
use oig_proxy.Delivery.Local.{acknowledge, inflight_setting, session_text}
use oig_proxy.Delivery.Steps.Taking.{acknowledge-QueueHas, audit-Has, expire-Has}
use oig_proxy.Delivery.Steps.Pending.{match-Has, mark-Has}
use oig_proxy.Server.State.{ProxyServer, Readings}
use oig_proxy.Server.Acks.{
  InFlight, is_ack, is_of, with_delivery, publish_confirmed_setting, observe_ack, observe_box_ack,
  confirm_event, observe_event, confirm_inflight, observe_reason, refuse_inflight, handle_acks,
  is_setting_ack, has_event, is_box_nack,
}

module _ (fl : Floats) (supply : ℕ → Draw) (Q : Dict (Text × Text) (TwinSetting fl.Float) → Type 0)
    (closed : (k : Text × Text) (q : Dict (Text × Text) (TwinSetting fl.Float))
      → Q q
      → Q (Dict.erase k q)) where
  open fl use {Float}

  abbrev Has : Delivery Float → Type 0
  Has d = Q d.twin_queue.queue

  abbrev pub ServerHas : ProxyServer Float → Type 0
  ServerHas s = Has s.twin_delivery

  acked-Has :
      (table key : Text) (session : Option Text) (d : Delivery Float)
      → Has d
      → Has (acknowledge table key session d).0
  acked-Has table key session d c = acknowledge-QueueHas Q closed table key session d c

  observe_ack-Has :
      (session : Option Text) (pair : InFlight Float) (table todo : Text) (d : Delivery Float)
      → Has d
      → Has (observe_ack fl supply session pair table todo d)
  unfolding observe_ack record_ack_box_observed record_plain
  observe_ack-Has session none table todo d c = acked-Has table todo session d c
  observe_ack-Has session (some (s, device)) table todo d c =
      keep-if Has (is_of table todo s)
        (audit-Has fl supply Q closed s device _ _ _ _ (session_text session) d c)
        (acked-Has table todo session d c)

  observe_box_ack-Has :
      (session : Option Text) (pair : InFlight Float) (a : Option BoxAck) (d : Delivery Float)
      → Has d
      → Has (observe_box_ack fl supply session pair a d)
  unfolding observe_box_ack
  observe_box_ack-Has session pair none d c = c
  observe_box_ack-Has session pair (some a) d c = keep-option Has a.table c λ table.
      keep-option Has a.todo c
        λ todo. keep-if Has (is_ack a.result) (observe_ack-Has session pair table todo d c) c

  confirm_event-Has :
      (session : Option Text) (pair : InFlight Float) (e : EventAck) (d : Delivery Float)
      → Has d
      → Has (confirm_event fl supply session pair e d)
  unfolding confirm_event record_ack_tbl_events
  confirm_event-Has session none e d c = acked-Has e.table e.key session d c
  confirm_event-Has session (some (s, device)) e d c =
      keep-if Has (is_of e.table e.key s)
        (acked-Has e.table e.key session _
          (audit-Has fl supply Q closed s device _ _ _ _ (session_text session) d c))
        (acked-Has e.table e.key session d c)

  publish-Has :
      (device table key : Text) (v : Value Float) (s : ProxyServer Float)
      → ServerHas s
      → ServerHas (publish_confirmed_setting device table key v s)
  unfolding publish_confirmed_setting
  publish-Has device table key v s c = keep-if ServerHas _ c c

  observe_event-Has :
      (r : Readings) (device : Text) (session : Option Text) (pair : InFlight Float)
      (e : Option EventAck) (s : ProxyServer Float)
      → ServerHas s
      → ServerHas (observe_event fl supply r device session pair e s)
  unfolding observe_event with_delivery
  observe_event-Has r device session pair none s c = c
  observe_event-Has r device session pair (some e) s c =
      let s' = publish_confirmed_setting device e.table e.key (str e.value) s in
      let m =
        match_cloud_tbl_events fl supply r.match_at device e.table e.key (str e.value)
          (session_text session) s'.twin_delivery in
      let c' : Has m.0 =
        match-Has fl supply Q closed r.match_at device e.table e.key (str e.value)
          (session_text session) s'.twin_delivery
          (publish-Has device e.table e.key (str e.value) s c) in
      keep-option ServerHas m.1 (confirm_event-Has session pair e m.0 c') λ p. c'

  confirm_inflight-Has :
      (session : Option Text) (pair : InFlight Float) (published : Bool) (s : ProxyServer Float)
      → ServerHas s
      → ServerHas (confirm_inflight fl supply session pair published s)
  unfolding confirm_inflight with_delivery record_ack_reason_setting
  confirm_inflight-Has session none published s c = c
  confirm_inflight-Has session (some (x, device)) published s c =
      acked-Has x.table x.key session _ (
        audit-Has fl supply Q closed x device _ _ _ _ (session_text session) _
          (keep-if ServerHas published c (publish-Has device x.table x.key x.value s c)))

  observe_reason-Has :
      (r : Readings) (device : Text) (session : Option Text) (pair : InFlight Float)
      (published : Bool) (s : ProxyServer Float)
      → ServerHas s
      → ServerHas (observe_reason fl supply r device session pair published s)
  unfolding observe_reason with_delivery
  observe_reason-Has r device session pair published s c =
      let m =
        mark_cloud_reason_setting fl supply r.mark_at.0 r.mark_at.1 device (session_text session)
          s.twin_delivery in
      let c' : Has m.0 =
        mark-Has fl supply Q closed r.mark_at.0 r.mark_at.1 device (session_text session)
          s.twin_delivery c in
      keep-option ServerHas m.1
        (confirm_inflight-Has session pair published (with_delivery m.0 s) c') λ p. c'

  refuse_inflight-Has :
      (session : Option Text) (pair : InFlight Float) (d : Delivery Float)
      → Has d
      → Has (refuse_inflight fl supply session pair d)
  unfolding refuse_inflight record_nack record_plain
  refuse_inflight-Has session none d c = c
  refuse_inflight-Has session (some (x, device)) d c =
      acked-Has x.table x.key session _
        (audit-Has fl supply Q closed x device _ _ _ _ (session_text session) d c)

  pub handle_acks-Has :
      (r : Readings) (device : Text) (session : Option Text) (pair : InFlight Float)
      (a : Option BoxAck) (e : Option EventAck) (s : ProxyServer Float)
      → ServerHas s
      → ServerHas (handle_acks fl supply r device session pair a e s)
  unfolding handle_acks with_delivery
  handle_acks-Has r device session pair a e s c =
      let c1 = observe_box_ack-Has session pair a s.twin_delivery c in
      let s2 =
        observe_event fl supply r device session pair e
          (with_delivery (observe_box_ack fl supply session pair a s.twin_delivery) s) in
      let c2 : ServerHas s2 = observe_event-Has r device session pair e _ c1 in
      let c3 =
        keep-if ServerHas (is_setting_ack fl supply a)
          (observe_reason-Has r device session pair (has_event fl supply e) s2 c2) c2 in
      keep-if ServerHas (is_box_nack fl supply a) (refuse_inflight-Has session pair _ c3) c3

  pub inflight_setting-Has :
      (t : ℕ) (d : Delivery Float) → Has d → Has (inflight_setting fl supply t d).0
  unfolding inflight_setting
  inflight_setting-Has t d c =
      let d' = expire_cloud_pending fl supply t d in
      let c' = expire-Has fl supply Q closed t d c in
      keep-option (λ (x : Delivery Float × InFlight Float). Has x.0) (oldest_cloud_pending none d')
        c' λ p. c'

  module _ (decode : Bytes → Text) (read_int : Text → Option ℤ)
      (render_local render_utc : ℤ → Bytes) where
    pub handle_twin_frames-Has :
        (r : Readings) (session : Option Text) (frame : Bytes) (s : ProxyServer Float)
        → ServerHas s
        → ServerHas (
            handle_twin_frames fl supply decode read_int render_local render_utc r session false
              frame s)
    unfolding handle_twin_frames with_delivery
    handle_twin_frames-Has r session frame s c =
        let text = decode frame in
        let parsed = parse_xml_frame fl read_int text in
        let (d, pair) = inflight_setting fl supply r.inflight_at s.twin_delivery in
        keep-if ServerHas (not s.has_twin_delivery) c (
          handle_acks-Has r (frame_device fl supply decode read_int render_local render_utc parsed)
            session pair (parse_box_ack text) (parse_tbl_events_ack parsed) (with_delivery d s)
            (inflight_setting-Has r.inflight_at s.twin_delivery c))

    pub observe_ids-Has :
        (text : Text) (frame : Bytes) (s : ProxyServer Float)
        → ServerHas s
        → ServerHas (
            observe_ids fl supply decode read_int render_local render_utc text
              (process_frame fl supply decode read_int render_local render_utc frame s))
    unfolding observe_ids process_frame with_delivery observe_id_set observe_msg_id
    observe_ids-Has text frame s c = keep-if ServerHas s.has_twin_delivery c c

    cloud_inflight-Has :
        (t : ℕ) (s : ProxyServer Float)
        → ServerHas s
        → ServerHas (with_delivery (is_cloud_inflight fl supply t s.twin_delivery).0 s)
    unfolding is_cloud_inflight with_delivery
    cloud_inflight-Has t s c = expire-Has fl supply Q closed t s.twin_delivery c

    pub may_answer-Has :
        (r : Readings) (polls : Bool) (s : ProxyServer Float)
        → ServerHas s
        → ServerHas (may_answer fl supply decode read_int render_local render_utc r polls s).0
    unfolding may_answer with_delivery
    may_answer-Has r polls s c =
        let s1 =
          if polls && s.has_twin_delivery
          then with_delivery (is_cloud_inflight fl supply r.poll_at s.twin_delivery).0 s
          else s in
        let c1 : ServerHas s1 =
          keep-if ServerHas (polls && s.has_twin_delivery) (cloud_inflight-Has r.poll_at s c) c in
        keep-if (λ (p : ProxyServer Float × Bool). ServerHas p.0)
          (s1.has_twin_delivery && has_pending s1.twin_delivery)
          (cloud_inflight-Has r.cloud_at s1 c1) c1
