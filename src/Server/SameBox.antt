-- ===== src/Server/SameBox.antt =====
-- The handling of acknowledgements writes nothing to the box and nothing to the cloud.
use oig_proxy.Common.{List, ℕ, false}
use oig_proxy.Frame.Crc.{Bytes}
use oig_proxy.Frame.Ack.{parse_box_ack, parse_tbl_events_ack}
use oig_proxy.Frame.Parse.{parse_xml_frame}
use oig_proxy.Delivery.Follow.{is_cloud_inflight}
use oig_proxy.Delivery.Local.{inflight_setting, has_pending}
use oig_proxy.Server.Acks.{handle_twin_frames, frame_device}
use oig_proxy.Server.Box.{process_frame, observe_ids, may_answer}
use oig_proxy.Common.{◌&&◌, not, if◌then◌else◌, ◌∙◌}
use oig_proxy.Common.Decimal.{ℤ}
use oig_proxy.Common.{ℕ, ◌≡◌, refl, ◌∙◌, arith, Bool, Option, none, some, Text, text_eq, pair_eq}
use oig_proxy.Common.Keeps.{keep-if, keep-option}
use oig_proxy.Values.{Floats, Value, str}
use oig_proxy.Audit.Records.{Draw}
use oig_proxy.Frame.Ack.{BoxAck, EventAck}
use oig_proxy.Delivery.Follow.{match_cloud_tbl_events, mark_cloud_reason_setting}
use oig_proxy.Delivery.Local.{session_text}
use oig_proxy.Server.State.{ProxyServer, Readings}
use oig_proxy.Server.Acks.{
  InFlight, with_delivery, publish_confirmed_setting, observe_box_ack, observe_event,
  confirm_inflight, observe_reason, handle_acks, is_setting_ack, has_event, is_box_nack,
}

-- what went to the box and to the cloud, with the count of the frames
abbrev pub wire : {F : Type 0} → ProxyServer F → List Bytes × (List Bytes × ℕ)
wire s = (s.to_box, (s.to_cloud, s.frames_forwarded))

module _ (fl : Floats) (supply : ℕ → Draw) where
  open fl use {Float}

  publish-wire :
      (device table key : Text) (v : Value Float) (s : ProxyServer Float)
      → wire (publish_confirmed_setting device table key v s) ≡ wire s
  unfolding publish_confirmed_setting
  publish-wire device table key v s = ground arith

  observe_event-wire :
      (r : Readings) (device : Text) (session : Option Text) (pair : InFlight Float)
      (e : Option EventAck) (s : ProxyServer Float)
      → wire (observe_event fl supply r device session pair e s) ≡ wire s
  unfolding observe_event with_delivery
  observe_event-wire r device session pair none s = refl
  observe_event-wire r device session pair (some e) s =
      let s' = publish_confirmed_setting device e.table e.key (str e.value) s in
      let same = publish-wire device e.table e.key (str e.value) s in
      keep-option (λ (x : ProxyServer Float). wire x ≡ wire s)
        ((match_cloud_tbl_events fl supply r.match_at device e.table e.key (str e.value)
          (session_text session) s'.twin_delivery).1)
        same λ p. same

  confirm_inflight-wire :
      (session : Option Text) (pair : InFlight Float) (published : Bool) (s : ProxyServer Float)
      → wire (confirm_inflight fl supply session pair published s) ≡ wire s
  unfolding confirm_inflight with_delivery
  confirm_inflight-wire session none published s = refl
  confirm_inflight-wire session (some (x, device)) published s =
      keep-if (λ (y : ProxyServer Float). wire y ≡ wire s) published refl
        (publish-wire device x.table x.key x.value s)

  observe_reason-wire :
      (r : Readings) (device : Text) (session : Option Text) (pair : InFlight Float)
      (published : Bool) (s : ProxyServer Float)
      → wire (observe_reason fl supply r device session pair published s) ≡ wire s
  unfolding observe_reason with_delivery
  observe_reason-wire r device session pair published s =
      let m =
        mark_cloud_reason_setting fl supply r.mark_at.0 r.mark_at.1 device (session_text session)
          s.twin_delivery in
      keep-option (λ (x : ProxyServer Float). wire x ≡ wire s) m.1
        (confirm_inflight-wire session pair published (with_delivery m.0 s)) λ p. refl

  pub handle_acks-wire :
      (r : Readings) (device : Text) (session : Option Text) (pair : InFlight Float)
      (a : Option BoxAck) (e : Option EventAck) (s : ProxyServer Float)
      → wire (handle_acks fl supply r device session pair a e s) ≡ wire s
  unfolding handle_acks with_delivery
  handle_acks-wire r device session pair a e s =
      let s1 = with_delivery (observe_box_ack fl supply session pair a s.twin_delivery) s in
      let s2 = observe_event fl supply r device session pair e s1 in
      let same : wire s2 ≡ wire s = observe_event-wire r device session pair e s1 in
      let same' =
        keep-if (λ (x : ProxyServer Float). wire x ≡ wire s) (is_setting_ack fl supply a)
          (observe_reason-wire r device session pair (has_event fl supply e) s2 ∙ same) same in
      keep-if (λ (x : ProxyServer Float). wire x ≡ wire s) (is_box_nack fl supply a) same' same'

module _ (fl : Floats) (supply : ℕ → Draw) (decode : Bytes → Text) (read_int : Text → Option ℤ)
    (render_local render_utc : ℤ → Bytes) where
  open fl use {Float}

  pub handle_twin_frames-wire :
      (r : Readings) (session : Option Text) (frame : Bytes) (s : ProxyServer Float)
      → wire (
          handle_twin_frames fl supply decode read_int render_local render_utc r session false frame
            s)
        ≡ wire s
  unfolding handle_twin_frames with_delivery
  handle_twin_frames-wire r session frame s =
      let text = decode frame in
      let parsed = parse_xml_frame fl read_int text in
      let (d, pair) = inflight_setting fl supply r.inflight_at s.twin_delivery in
      keep-if (λ (x : ProxyServer Float). wire x ≡ wire s) (not s.has_twin_delivery) refl
        (handle_acks-wire fl supply r
          (frame_device fl supply decode read_int render_local render_utc parsed) session pair
          (parse_box_ack text) (parse_tbl_events_ack parsed) (with_delivery d s))

  pub observe_ids-wire :
      (text : Text) (frame : Bytes) (s : ProxyServer Float)
      → wire (
          observe_ids fl supply decode read_int render_local render_utc text
            (process_frame fl supply decode read_int render_local render_utc frame s))
        ≡ wire s
  unfolding observe_ids process_frame with_delivery
  observe_ids-wire text frame s =
      keep-if (λ (x : ProxyServer Float). wire x ≡ wire s) s.has_twin_delivery refl refl

  pub may_answer-wire :
      (r : Readings) (polls : Bool) (s : ProxyServer Float)
      → wire (may_answer fl supply decode read_int render_local render_utc r polls s).0 ≡ wire s
  unfolding may_answer with_delivery
  may_answer-wire r polls s =
      let s1 =
        if polls && s.has_twin_delivery
        then with_delivery (is_cloud_inflight fl supply r.poll_at s.twin_delivery).0 s
        else s in
      let same =
        keep-if (λ (x : ProxyServer Float). wire x ≡ wire s) (polls && s.has_twin_delivery) refl
          refl in
      keep-if (λ (p : ProxyServer Float × Bool). wire p.0 ≡ wire s)
        (s1.has_twin_delivery && has_pending s1.twin_delivery) same same
