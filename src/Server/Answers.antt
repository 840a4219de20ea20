-- ===== src/Server/Answers.antt =====
-- What the handling of a frame of the box writes to the box: nothing, the file that is replayed, or
-- one setting of the queue.
use oig_proxy.Server.Keeps.{may_answer-Has, observe_ids-Has, handle_twin_frames-Has}
use oig_proxy.Server.SameBox.{may_answer-wire, observe_ids-wire, handle_twin_frames-wire}
use oig_proxy.Common.{ap, ◌∙◌}
use oig_proxy.Common.{
  ℕ, ◌≡◌, refl, subst, ◌⊎◌, inl, inr, Bool, true, false, Option, none, some, List, ◌∷◌, Text,
  text_eq, pair_eq, codes, Holds,
}
use oig_proxy.Common.Dict.{values}
use oig_proxy.Common.Decimal.{ℤ}
use oig_proxy.Common.Keeps.{keep-if, keep-option_known}
use oig_proxy.Values.{Floats}
use oig_proxy.Audit.Records.{Draw}
use oig_proxy.Queue.{TwinSetting}
use oig_proxy.Frame.Crc.{Bytes}
use oig_proxy.Frame.Parse.{parse_xml_frame}
use oig_proxy.Frame.Setting.{build_setting_frame}
use oig_proxy.Delivery.State.{Delivery, record_injected_box}
use oig_proxy.Delivery.Local.{deliver_pending, session_text}
use oig_proxy.Delivery.Counters.{next_id_set, next_msg_id}
use oig_proxy.Server.Frames.{is_in, poll_result_values, effective_table_name}
use oig_proxy.Server.State.{ProxyServer, Readings}
use oig_proxy.Server.Acks.{with_delivery, handle_twin_frames, frame_device}
use oig_proxy.Delivery.State.{record_plain}
use oig_proxy.Delivery.Steps.Taking.{audit-Has}
use oig_proxy.Delivery.Steps.Pending.{deliver-Has}
use oig_proxy.Handler.Lemmas.{erase-Holds}
use oig_proxy.System.Delivered.{delivered-Holds}
use oig_proxy.Server.Box.{
  process_frame, observe_ids, write_setting, inject_setting, answer_poll, may_answer,
  handle_box_frame,
}

module _ (fl : Floats) (supply : ℕ → Draw) (decode : Bytes → Text) (read_int : Text → Option ℤ)
    (render_local render_utc : ℤ → Bytes) where
  open fl use {Float}

  module _ (P : TwinSetting Float → Type 0) where
    -- What a frame of the box has led to, with the list of what was written to the box before it:
    -- nothing was written and the frame is not withheld, or it is withheld and one more frame was
    -- written, which is the one to be replayed, or carries a setting with the property.
    abbrev pub Answered : Readings → Text → List Bytes → ProxyServer Float × Bool → Type 0
    Answered r device before p =
        ((p.1 ≡ false) × (p.0.to_box ≡ before))
        ⊎ ((p.1 ≡ true)
              × ((content : Bytes) × (r.replay ≡ some content) × (p.0.to_box ≡ content ∷ before))
            ⊎ ((p.1 ≡ true)
                × (x : TwinSetting Float) × P x
                × (id_set : ℤ) × (msg_id : ℤ) × (p.0.to_box
                    ≡ build_setting_frame fl render_local render_utc r.setting_now r.setting_random
                        r.setting_ver device x.table x.key x.value id_set (some msg_id)
                        (codes "New")
                      ∷ before)))

    abbrev QueueHolds : ProxyServer Float → Type 0
    QueueHolds s = Holds P (values s.twin_delivery.twin_queue.queue)

    -- the answer, with the property of the queue kept
    abbrev pub Keeps : Readings → Text → List Bytes → ProxyServer Float × Bool → Type 0
    Keeps r device before p = QueueHolds p.0 × Answered r device before p

    write_setting-Keeps :
        (r : Readings) (device : Text) (session : Option Text) (x : TwinSetting Float) (sent : Bool)
        (d : Delivery Float) (s : ProxyServer Float)
        → P x
        → Holds P (values d.twin_queue.queue)
        → Keeps r device s.to_box (
            write_setting fl supply decode read_int render_local render_utc r device session x sent
              d s)
    unfolding write_setting with_delivery next_id_set next_msg_id record_injected_box record_plain
    write_setting-Keeps r device session x true d s h c =
        let (d1, id_set) = next_id_set r.epoch d in
        let (d2, msg_id) = next_msg_id r.msg_random d1 in
        (
          audit-Has fl supply (λ q. Holds P (values q)) (erase-Holds P) x device _ _ _ _
              (session_text session) d2 c,
          inr (inr (refl, x, h, id_set, msg_id, refl)),
        )
    write_setting-Keeps r device session x false d s h c = (c, inl (refl, refl))

    inject_setting-Keeps :
        (r : Readings) (device : Text) (session : Option Text) (s : ProxyServer Float)
        → QueueHolds s
        → Keeps r device s.to_box
            (inject_setting fl supply decode read_int render_local render_utc r device session s)
    unfolding inject_setting with_delivery
    inject_setting-Keeps r device session s c =
        let m =
          deliver_pending fl supply r.deliver.0 r.deliver.1.0 r.deliver.1.1 device session
            s.twin_delivery in
        let c' : Holds P (values m.0.twin_queue.queue) =
          deliver-Has fl supply (λ q. Holds P (values q)) (erase-Holds P) r.deliver.0 r.deliver.1.0
            r.deliver.1.1 device session s.twin_delivery c in
        keep-option_known (λ (p : ProxyServer Float × Bool). Keeps r device s.to_box p) m.1
          (λ e. (c', inl (refl, refl)))
          λ x e.
            write_setting-Keeps r device session x r.setting_sent m.0 s
              (delivered-Holds fl supply P r.deliver.0 r.deliver.1.0 r.deliver.1.1 device session
                s.twin_delivery x c e)
              c'

    answer_poll-Keeps :
        (r : Readings) (device : Text) (session : Option Text) (s : ProxyServer Float)
        → QueueHolds s
        → Keeps r device s.to_box
            (answer_poll fl supply decode read_int render_local render_utc r device session s)
    unfolding answer_poll
    answer_poll-Keeps r device session s c =
        let injected = inject_setting-Keeps r device session s c in
        keep-option_known (λ (p : ProxyServer Float × Bool). Keeps r device s.to_box p) r.replay
          (λ e. injected)
          λ content e.
            keep-if (λ (p : ProxyServer Float × Bool). Keeps r device s.to_box p) r.replay_sent
              (c, inr (inl (refl, (content, e, refl)))) injected

    -- The device of a frame.
    abbrev pub device_of : Bytes → Text
    device_of frame =
        frame_device fl supply decode read_int render_local render_utc
          (parse_xml_frame fl read_int (decode frame))

    -- Whatever property the settings of the queue have: the handling of a frame of the box keeps
    -- it, and writes at most one frame to the box. That one is the file to be replayed or carries
    -- a setting with the property, for the device of the frame; and the frame of the box is
    -- withheld from the cloud exactly when something was written.
    pub handle_box_frame-Answered :
        (r : Readings) (session : Option Text) (frame : Bytes) (s : ProxyServer Float)
        → QueueHolds s
        → Keeps r
            (device_of frame)
            s.to_box
            (handle_box_frame fl supply decode read_int render_local render_utc r session frame s)
    unfolding handle_box_frame
    handle_box_frame-Answered r session frame s c =
        let text = decode frame in
        let parsed = parse_xml_frame fl read_int text in
        let s1 =
          handle_twin_frames fl supply decode read_int render_local render_utc r none false frame
            s in
        let s2 =
          observe_ids fl supply decode read_int render_local render_utc text
            (process_frame fl supply decode read_int render_local render_utc frame s1) in
        let polls = is_in poll_result_values (effective_table_name fl parsed text) in
        let m = may_answer fl supply decode read_int render_local render_utc r polls s2 in
        let c' : QueueHolds m.0 =
          may_answer-Has fl supply (λ q. Holds P (values q)) (erase-Holds P) decode read_int
            render_local render_utc r polls s2
            (observe_ids-Has fl supply (λ q. Holds P (values q)) (erase-Holds P) decode read_int
              render_local render_utc text frame s1
              (handle_twin_frames-Has fl supply (λ q. Holds P (values q)) (erase-Holds P) decode
                read_int render_local render_utc r none frame s c)) in
        let same : m.0.to_box ≡ s.to_box =
          ap (λ w. w.0)
            (may_answer-wire fl supply decode read_int render_local render_utc r polls s2
              ∙ (observe_ids-wire fl supply decode read_int render_local render_utc text frame s1
                  ∙ handle_twin_frames-wire fl supply decode read_int render_local render_utc r none
                      frame s)) in
        keep-if (λ (p : ProxyServer Float × Bool). Keeps r (device_of frame) s.to_box p) m.1
          (subst
            (λ b. Keeps r (device_of frame) b (
              answer_poll fl supply decode read_int render_local render_utc r (device_of frame)
                session m.0))
            same (answer_poll-Keeps r (device_of frame) session m.0 c'))
          (c', inl (refl, same))
