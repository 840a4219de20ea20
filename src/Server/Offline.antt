-- ===== src/Server/Offline.antt =====
-- The local answers in offline mode, while no setting waits for the box.
use oig_proxy.Common.{
  ℕ, suc, ◌≡◌, ◌∙◌, refl, ap, Bool, true, not, ◌&&◌, Option, none, some, List, [], ◌∷◌, Text, codes,
  ◌==◌, text_eq, if◌then◌else◌,
}
use oig_proxy.Common.Decimal.{ℤ}
use oig_proxy.Common.Keeps.{keep-if, keep-option_known}
use oig_proxy.Values.{Floats}
use oig_proxy.Audit.Records.{Draw}
use oig_proxy.Frame.Crc.{Bytes}
use oig_proxy.Frame.Ack.{parse_box_ack, parse_tbl_events_ack}
use oig_proxy.Frame.Extract.{infer_table_name}
use oig_proxy.Frame.LocalAck.{build_local_ack}
use oig_proxy.Frame.Parse.{parse_xml_frame}
use oig_proxy.Delivery.Local.{deliver_pending, inflight_setting}
use oig_proxy.Delivery.Steps.Pending.{deliver-Has}
use oig_proxy.System.Delivered.{delivered-Holds}
use oig_proxy.Server.Frames.{effective_table_name}
use oig_proxy.Server.State.{ProxyServer, Readings}
use oig_proxy.Server.Acks.{
  with_delivery, deliver_pending_for_isnewset, frame_device, handle_twin_frames,
}
use oig_proxy.Server.Box.{next, process_frame, handle_offline_frames}
use oig_proxy.Server.Keeps.{handle_acks-Has, inflight_setting-Has}
use oig_proxy.Server.SameBox.{wire, handle_acks-wire}
use oig_proxy.Server.Forwarding.{IsQuiet, erase-empty}

module _ (fl : Floats) (supply : ℕ → Draw) (decode : Bytes → Text) (read_int : Text → Option ℤ)
    (render_local render_utc : ℤ → Bytes) where
  open fl use {Float}

  -- No setting waits, and nothing was written.
  abbrev IsStill : ProxyServer Float → ProxyServer Float → Type 0
  IsStill s s' = IsQuiet s' × (wire s' ≡ wire s)

  deliver_pending_for_isnewset-IsStill :
      (r : Readings) (device : Text) (s : ProxyServer Float)
      → IsQuiet s
      → IsStill s (
          deliver_pending_for_isnewset fl supply decode read_int render_local render_utc r device s)
  unfolding deliver_pending_for_isnewset with_delivery
  deliver_pending_for_isnewset-IsStill r device s e =
      let m =
        deliver_pending fl supply r.deliver.0 r.deliver.1.0 r.deliver.1.1 device none
          s.twin_delivery in
      keep-option_known (λ (x : ProxyServer Float). IsStill s x) m.1
        (λ n. (
          deliver-Has fl supply (λ q. q ≡ []) erase-empty r.deliver.0 r.deliver.1.0 r.deliver.1.1
              device none s.twin_delivery e,
          refl,
        ))
        λ x f. absurd (
          delivered-Holds fl supply (λ y. ⊥) r.deliver.0 r.deliver.1.0 r.deliver.1.1 device none
            s.twin_delivery x (rw e tt) f)

  handle_twin_frames-IsStill :
      (r : Readings) (session : Option Text) (hook : Bool) (frame : Bytes) (s : ProxyServer Float)
      → IsQuiet s
      → IsStill s (
          handle_twin_frames fl supply decode read_int render_local render_utc r session hook frame
            s)
  unfolding handle_twin_frames with_delivery
  handle_twin_frames-IsStill r session hook frame s e =
      let text = decode frame in
      let parsed = parse_xml_frame fl read_int text in
      let device = frame_device fl supply decode read_int render_local render_utc parsed in
      let asks = hook && effective_table_name fl parsed text == codes "IsNewSet" in
      let s' =
        if asks
        then deliver_pending_for_isnewset fl supply decode read_int render_local render_utc r device
            s
        else s in
      let (quiet, same) : IsStill s s' =
        keep-if (λ (x : ProxyServer Float). IsStill s x) asks
          (deliver_pending_for_isnewset-IsStill r device s e) (e, refl) in
      let (d, pair) = inflight_setting fl supply r.inflight_at s'.twin_delivery in
      keep-if (λ (x : ProxyServer Float). IsStill s x) (not s.has_twin_delivery) (e, refl)
        (
          handle_acks-Has fl supply (λ q. q ≡ []) erase-empty r device session pair
              (parse_box_ack text) (parse_tbl_events_ack parsed) (with_delivery d s')
              (inflight_setting-Has fl supply (λ q. q ≡ []) erase-empty r.inflight_at
                s'.twin_delivery quiet),
          handle_acks-wire fl supply r device session pair (parse_box_ack text)
                (parse_tbl_events_ack parsed) (with_delivery d s')
              ∙ same,
        )

  -- the local answer to a frame
  abbrev pub answer_to : Readings → Bytes → Bytes
  answer_to r frame =
      build_local_ack r.now_local r.now_utc
        (elim (infer_table_name (decode frame)) [ none ↦ [] | some name ↦ name ])

  -- the answers, the last first, in front of what was written before
  abbrev pub answers_before : (ℕ → Readings) → List Bytes → List Bytes → List Bytes
  answers_before readings [] l = l
  answers_before readings (f ∷ fs) l =
      answers_before (next readings) fs (answer_to (readings 0) f ∷ l)

  -- Offline, while no setting waits in the queue and the box takes the answers: every frame gets
  -- its local answer, in the order of the frames; nothing else is written to the box, nothing to
  -- the cloud, and no frame is left.
  pub handle_offline_frames-answers :
      (readings : ℕ → Readings) (session : Option Text) (frames : List Bytes)
      (s : ProxyServer Float)
      → IsQuiet s
      → ((n : ℕ) → (readings n).answer_sent ≡ true)
      → let (s', left) =
          handle_offline_frames fl supply decode read_int render_local render_utc readings session
            frames s in
        (s'.to_box ≡ answers_before readings frames s.to_box)
        × (s'.to_cloud ≡ s.to_cloud)
        × (left ≡ [])
  unfolding handle_offline_frames process_frame
  handle_offline_frames-answers readings session [] s e taken = (refl, refl, refl)
  handle_offline_frames-answers readings session (f ∷ fs) s e taken =
      let s1 = record s { to_box = answer_to (readings 0) f ∷ s.to_box } in
      let handled =
        handle_twin_frames fl supply decode read_int render_local render_utc (readings 0) session
          true f s1 in
      let s2 = process_frame fl supply decode read_int render_local render_utc f handled in
      let (quiet, same) = handle_twin_frames-IsStill (readings 0) session true f s1 e in
      let (box, cloud, left) =
        handle_offline_frames-answers (next readings) session fs s2 quiet λ n. taken (suc n) in
      rw (taken 0) (
        box ∙ ap (λ w. answers_before (next readings) fs w.0) same,
        cloud ∙ ap (λ w. w.1.0) same,
        left,
      )
