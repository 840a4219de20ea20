-- ===== src/Server/Box.antt =====
-- proxy/server.py: the frames of the box, on their way to the cloud and in offline mode.
use mathlib.Core.List.{flatten}
use oig_proxy.Common.{
  ℕ, suc, Bool, true, false, not, ◌&&◌, ◌||◌, ◌+◌, Option, none, some, List, [], ◌∷◌, ◌++◌, length,
  Text, codes, text_eq, if◌then◌else◌,
}
use oig_proxy.Common.Dict.{Dict}
use oig_proxy.Common.Decimal.{ℤ}
use oig_proxy.Values.{Floats, Value}
use oig_proxy.Audit.Records.{Draw}
use oig_proxy.Mode.{record_failure, is_offline}
use oig_proxy.Queue.{TwinSetting}
use oig_proxy.Frame.Crc.{Bytes}
use oig_proxy.Frame.Extract.{extract_frames, infer_table_name}
use oig_proxy.Frame.Setting.{build_setting_frame}
use oig_proxy.Frame.Parse.{parse_xml_frame}
use oig_proxy.Frame.LocalAck.{build_local_ack}
use oig_proxy.Delivery.State.{Delivery, record_injected_box}
use oig_proxy.Delivery.Follow.{is_cloud_inflight}
use oig_proxy.Delivery.Local.{deliver_pending, has_pending, session_text}
use oig_proxy.Delivery.Counters.{observe_id_set, observe_msg_id, next_id_set, next_msg_id}
use oig_proxy.Server.Frames.{
  is_in, poll_result_values, effective_table_name, is_transport_frame, extract_id_set,
  extract_msg_id,
}
use oig_proxy.Server.State.{ProxyServer, Readings}
use oig_proxy.Server.Acks.{with_delivery, frame_device, handle_twin_frames}

-- the readings of the frames behind the first
abbrev pub next : (ℕ → Readings) → ℕ → Readings
next readings n = readings (suc n)

-- What one `read` of the box meets: the data, the readings of its frames, the outcome of the write
-- to the cloud, and the clock and the message of its error.
pub record Read : Type 0 where
  pub data_bytes : Bytes
  pub readings : ℕ → Readings
  pub offline_readings : ℕ → Readings
  pub cloud_sent : Bool
  pub failed_at : ℕ × ℕ
  pub failure : Text

module _ (fl : Floats) (supply : ℕ → Draw) (decode : Bytes → Text) (read_int : Text → Option ℤ)
    (render_local render_utc : ℤ → Bytes) where
  open fl use {Float}

  -- `parsed and not self._is_transport_frame(parsed)`
  unfoldable pub is_publishable : Dict Text (Value Float) → Bool
  unfolding is_transport_frame
  is_publishable [] = false
  is_publishable (e ∷ d) = not (is_transport_frame fl (e ∷ d))

  unfoldable pub process_frame : Bytes → ProxyServer Float → ProxyServer Float
  unfolding parse_xml_frame is_publishable
  process_frame frame s =
      let parsed = parse_xml_frame fl read_int (decode frame) in
      record s {
        frames_received = s.frames_received + 1;
        published =
            if s.has_on_frame && is_publishable parsed then parsed ∷ s.published else s.published;
      }

  unfoldable pub observe_ids : Text → ProxyServer Float → ProxyServer Float
  unfolding observe_id_set observe_msg_id extract_id_set extract_msg_id with_delivery
  observe_ids text s =
      if s.has_twin_delivery
      then with_delivery
          (observe_msg_id (extract_msg_id read_int text)
            (observe_id_set (extract_id_set read_int text) s.twin_delivery))
          s
      else s

  -- A setting is written to the box, in a frame with new ids; the flag tells whether the box takes
  -- it.
  unfoldable pub write_setting :
      Readings
      → (device : Text) → (session : Option Text) → TwinSetting Float
      → (sent : Bool) → Delivery Float
      → ProxyServer Float
      → ProxyServer Float × Bool
  unfolding next_id_set next_msg_id build_setting_frame record_injected_box with_delivery
  write_setting r device session x true d s =
      let (d1, id_set) = next_id_set r.epoch d in
      let (d2, msg_id) = next_msg_id r.msg_random d1 in
      let frame =
        build_setting_frame fl render_local render_utc r.setting_now r.setting_random r.setting_ver
          device x.table x.key x.value id_set (some msg_id) (codes "New") in
      (
        record s {
          twin_delivery = record_injected_box fl supply x device (session_text session) d2;
          to_box = frame ∷ s.to_box;
        },
        true,
      )
  write_setting r device session x false d s =
      (with_delivery (next_msg_id r.msg_random (next_id_set r.epoch d).0).0 s, false)

  -- The setting that `deliver_pending` gives is written to the box.
  unfoldable pub inject_setting :
      Readings
      → (device : Text) → (session : Option Text) → ProxyServer Float
      → ProxyServer Float × Bool
  unfolding deliver_pending write_setting with_delivery
  inject_setting r device session s =
      let (d, pending) =
        deliver_pending fl supply r.deliver.0 r.deliver.1.0 r.deliver.1.1 device session
          s.twin_delivery in
      elim pending [
        | none ↦ (with_delivery d s, false)
        | some x ↦ write_setting r device session x r.setting_sent d s
      ]

  -- The answer to a poll of the box: the file that is replayed, or else a setting.
  unfoldable pub answer_poll :
      Readings
      → (device : Text) → (session : Option Text) → ProxyServer Float
      → ProxyServer Float × Bool
  unfolding inject_setting
  answer_poll r device session s =
      let injected = inject_setting r device session s in
      elim r.replay [
        | none ↦ injected
        | some content ↦
            if r.replay_sent then (record s { to_box = content ∷ s.to_box }, true) else injected
      ]

  -- The condition under which a frame may be answered with a setting; the clock is read where the
  -- source asks for the settings of the cloud.
  unfoldable pub may_answer :
      Readings → (polls : Bool) → ProxyServer Float → ProxyServer Float × Bool
  unfolding has_pending is_cloud_inflight with_delivery
  may_answer r polls s =
      let s1 =
        if polls && s.has_twin_delivery
        then with_delivery (is_cloud_inflight fl supply r.poll_at s.twin_delivery).0 s
        else s in
      let (d, busy) = is_cloud_inflight fl supply r.cloud_at s1.twin_delivery in
      if s1.has_twin_delivery && has_pending s1.twin_delivery
      then (with_delivery d s1, not busy && polls)
      else (s1, false)

  -- One frame of the box. The result tells whether it is withheld from the cloud.
  unfoldable pub handle_box_frame :
      Readings → Option Text → Bytes → ProxyServer Float → ProxyServer Float × Bool
  unfolding handle_twin_frames process_frame observe_ids may_answer answer_poll parse_xml_frame
      effective_table_name frame_device is_in
  handle_box_frame r session frame s =
      let text = decode frame in
      let parsed = parse_xml_frame fl read_int text in
      let s1 =
        handle_twin_frames fl supply decode read_int render_local render_utc r none false frame s in
      let s2 = observe_ids text (process_frame frame s1) in
      let polls = is_in poll_result_values (effective_table_name fl parsed text) in
      let (s3, may) = may_answer r polls s2 in
      let device = frame_device fl supply decode read_int render_local render_utc parsed in
      if may then answer_poll r device session s3 else (s3, false)

  -- The frames of one read: those to forward, and whether one was withheld.
  unfoldable pub handle_box_frames :
      (ℕ → Readings)
      → Option Text
      → List Bytes
      → ProxyServer Float
      → ProxyServer Float × (List Bytes × Bool)
  unfolding handle_box_frame
  handle_box_frames readings session [] s = (s, ([], false))
  handle_box_frames readings session (f ∷ fs) s =
      let (s1, withheld) = handle_box_frame (readings 0) session f s in
      let (s2, (chunks, w)) = handle_box_frames (next readings) session fs s1 in
      (s2, (if withheld then chunks else f ∷ chunks, withheld || w))

  -- `_handle_offline_frames`, for the frames of a buffer. The result has the frames that stay in
  -- the buffer when the box does not take an answer.
  unfoldable pub handle_offline_frames :
      (ℕ → Readings) → Option Text → List Bytes → ProxyServer Float → ProxyServer Float × List Bytes
  unfolding build_local_ack infer_table_name handle_twin_frames process_frame
  handle_offline_frames readings session [] s = (s, [])
  handle_offline_frames readings session (f ∷ fs) s =
      let r = readings 0 in
      let table : Text = elim (infer_table_name (decode f)) [ none ↦ [] | some name ↦ name ] in
      let answer = build_local_ack r.now_local r.now_utc table in
      let s1 = record s { to_box = answer ∷ s.to_box } in
      let s2 = process_frame f (
        handle_twin_frames fl supply decode read_int render_local render_utc r session true f s1) in
      let rest = handle_offline_frames (next readings) session fs s2 in
      if r.answer_sent then rest else (s, fs)

  -- The cloud does not take what is written to it: the pipe ends.
  unfoldable pub fail_cloud : Read → Bytes → ProxyServer Float → ProxyServer Float
  unfolding record_failure is_offline extract_frames handle_offline_frames
  fail_cloud i payload s =
      let m = record_failure (some i.failure) i.failed_at.0 i.failed_at.1 s.mode_manager in
      let s' = record s { mode_manager = m } in
      if is_offline m
      then (handle_offline_frames i.offline_readings none
          (extract_frames (length payload) payload).0 s').0
      else s'

  -- A write to the cloud, with the number of frames in it. The flag tells whether the pipe goes on.
  unfoldable pub send_to_cloud :
      Read → (payload : Bytes) → (frames : ℕ) → ProxyServer Float → ProxyServer Float × Bool
  unfolding fail_cloud
  send_to_cloud i payload frames s =
      if i.cloud_sent
      then (
        record s {
          to_cloud = payload ∷ s.to_cloud;
          frames_forwarded = s.frames_forwarded + frames;
        },
        true,
      )
      else (fail_cloud i payload s, false)

  unfoldable pub forward_box :
      Read
      → (chunks : List Bytes) → (withheld : Bool) → ProxyServer Float
      → ProxyServer Float × Bool
  unfolding send_to_cloud flatten
  forward_box i chunks true s = (s, true)
  forward_box i (c ∷ cs) false s = send_to_cloud i (flatten (c ∷ cs)) (length (c ∷ cs)) s
  forward_box i [] false s = send_to_cloud i i.data_bytes 0 s

  -- One turn of the loop of `_pipe_box_to_cloud`, with data: the server, the buffer, and whether
  -- the pipe goes on.
  unfoldable pub box_turn :
      Option Text → Read → Bytes → ProxyServer Float → ProxyServer Float × (Bytes × Bool)
  unfolding extract_frames handle_box_frames forward_box
  box_turn session i buf s =
      let (frames, rest) = extract_frames (length (buf ++ i.data_bytes)) (buf ++ i.data_bytes) in
      let (s', (chunks, withheld)) = handle_box_frames i.readings session frames s in
      let (s'', goes_on) = forward_box i chunks withheld s' in (s'', (rest, goes_on))

  -- `_pipe_box_to_cloud`, from the reads until the box ends the connection
  unfoldable pub pipe_box_to_cloud :
      Option Text → List Read → Bytes → ProxyServer Float → ProxyServer Float
  unfolding box_turn
  pipe_box_to_cloud session [] buf s = s
  pipe_box_to_cloud session (i ∷ is) buf s =
      let (s', (rest, goes_on)) = box_turn session i buf s in
      let after_turn = pipe_box_to_cloud session is rest s' in if goes_on then after_turn else s'

  -- `_pipe_box_offline`
  unfoldable pub pipe_box_offline : List Read → Bytes → ProxyServer Float → ProxyServer Float
  unfolding extract_frames handle_offline_frames flatten
  pipe_box_offline [] buf s = s
  pipe_box_offline (i ∷ is) buf s =
      let (frames, rest) = extract_frames (length (buf ++ i.data_bytes)) (buf ++ i.data_bytes) in
      let (s', left) = handle_offline_frames i.offline_readings none frames s in
      pipe_box_offline is (flatten left ++ rest) s'
