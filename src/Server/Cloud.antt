-- ===== src/Server/Cloud.antt =====
-- proxy/server.py: the frames of the cloud, on their way to the box.
use oig_proxy.Common.{
  ℕ, Bool, true, ◌&&◌, ◌||◌, Option, none, some, List, [], ◌∷◌, ◌++◌, length, Text, codes, ◌==◌,
  text_eq, if◌then◌else◌,
}
use oig_proxy.Common.Dict
use oig_proxy.Common.Dict.{Dict}
use oig_proxy.Common.Decimal.{ℤ, pos}
use oig_proxy.Values.{Floats, Value}
use oig_proxy.Audit.Records.{Draw, contains}
use oig_proxy.Frame.Crc.{Bytes}
use oig_proxy.Frame.Extract.{extract_frames}
use oig_proxy.Frame.Parse.{parse_xml_frame}
use oig_proxy.Delivery.Follow.{begin_cloud_setting, set_cloud_inflight, clear_cloud_inflight}
use oig_proxy.Server.Frames.{text_or_empty, effective_table_name, extract_id_set, extract_msg_id}
use oig_proxy.Server.State.{ProxyServer, Readings}
use oig_proxy.Server.Acks.{with_delivery, handle_twin_frames}
use oig_proxy.Server.Box.{next, process_frame, observe_ids}

-- What one `read` of the cloud meets: the data, the readings of its frames, and whether the box
-- takes the data.
pub record CloudRead : Type 0 where
  pub data_bytes : Bytes
  pub readings : ℕ → Readings
  pub box_sent : Bool

-- `n or 0`
unfoldable pub or_zero : Option ℤ → ℤ
or_zero none = pos 0
or_zero (some n) = n

-- The text names a setting, though the table of its frame is another.
unfoldable pub looks_like_setting : Text → Bool
unfolding contains
looks_like_setting text =
    contains (codes "<Reason>Setting</Reason>") text
    && contains (codes "<TblName>") text
    && contains (codes "<TblItem>") text
    && contains (codes "<NewValue>") text

module _ (fl : Floats) (supply : ℕ → Draw) (decode : Bytes → Text) (read_int : Text → Option ℤ)
    (render_local render_utc : ℤ → Bytes) where
  open fl use {Float}

  -- A setting of the cloud, followed if it names its table, key, value and device.
  unfoldable pub track_cloud_setting :
      Readings → (text : Text) → Dict Text (Value Float) → ProxyServer Float → ProxyServer Float
  unfolding text_or_empty begin_cloud_setting set_cloud_inflight extract_id_set extract_msg_id
      or_zero with_delivery Dict.get
  track_cloud_setting r text parsed s =
      let field = λ (k : Text). text_or_empty fl (Dict.get k parsed) in
      let table = field (codes "_table") in
      let key = field (codes "TblItem") in
      let device = field (codes "_device_id") in
      let confirm = field (codes "Confirm") in
      let unnamed = with_delivery (set_cloud_inflight fl supply s.twin_delivery) s in
      elim (Dict.get (codes "NewValue") parsed) [
        | none ↦ unnamed
        | some value ↦
            if table == [] || key == [] || device == []
            then unnamed
            else with_delivery
                (begin_cloud_setting fl supply r.begin_at.0 r.begin_at.1.0 r.begin_at.1.1 device
                  table key value text (or_zero (extract_msg_id read_int text))
                  (or_zero (extract_id_set read_int text))
                  (if confirm == [] then codes "New" else confirm) s.twin_delivery)
                s
      ]

  unfoldable pub follow_cloud :
      Readings → (text : Text) → Dict Text (Value Float) → ProxyServer Float → ProxyServer Float
  unfolding effective_table_name looks_like_setting track_cloud_setting clear_cloud_inflight
      with_delivery
  follow_cloud r text parsed s =
      let table = effective_table_name fl parsed text in
      if table == codes "Setting" || looks_like_setting text
      then track_cloud_setting r text parsed s
      else if table == codes "END"
      then with_delivery (clear_cloud_inflight fl supply r.clear_at s.twin_delivery) s
      else s

  unfoldable pub handle_cloud_frame :
      Readings → Option Text → Bytes → ProxyServer Float → ProxyServer Float
  unfolding parse_xml_frame observe_ids follow_cloud handle_twin_frames process_frame
  handle_cloud_frame r session frame s =
      let text = decode frame in
      let parsed = parse_xml_frame fl read_int text in
      let s1 = observe_ids fl supply decode read_int render_local render_utc text s in
      let s2 = if s1.has_twin_delivery then follow_cloud r text parsed s1 else s1 in
      process_frame fl supply decode read_int render_local render_utc frame (
        handle_twin_frames fl supply decode read_int render_local render_utc r session true frame
          s2)

  unfoldable pub handle_cloud_frames :
      (ℕ → Readings) → Option Text → List Bytes → ProxyServer Float → ProxyServer Float
  unfolding handle_cloud_frame
  handle_cloud_frames readings session [] s = s
  handle_cloud_frames readings session (f ∷ fs) s =
      handle_cloud_frames (next readings) session fs (handle_cloud_frame (readings 0) session f s)

  -- `_pipe_cloud_to_box`, from the reads until the cloud ends the connection. The data goes to the
  -- box as it is, before its frames are looked at.
  unfoldable pub pipe_cloud_to_box :
      Option Text → List CloudRead → Bytes → ProxyServer Float → ProxyServer Float
  unfolding extract_frames handle_cloud_frames
  pipe_cloud_to_box session [] buf s = s
  pipe_cloud_to_box session (i ∷ is) buf s =
      let (frames, rest) = extract_frames (length (buf ++ i.data_bytes)) (buf ++ i.data_bytes) in
      let s1 = record s { to_box = i.data_bytes ∷ s.to_box } in
      let after_turn =
        pipe_cloud_to_box session is rest (handle_cloud_frames i.readings session frames s1) in
      if i.box_sent then after_turn else s
