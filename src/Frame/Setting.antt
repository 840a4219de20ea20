-- ===== src/Frame/Setting.antt =====
-- `build_setting_frame` of protocol/frames.py and `build_setting_xml` of twin/delivery.py. Texts are
-- taken by their UTF-8 bytes. The rendering of a time is a parameter: `render_local` of an epoch as
-- the Czech civil time, `render_utc` of an epoch as UTC.
use oig_proxy.Common.{
  ℕ, ◌≡◌, ◌∙◌, ap, Bool, true, false, Option, none, some, [], ◌∷◌, ◌++◌, codes, sym, nat_beq,
  if◌then◌else◌,
}
use oig_proxy.Common.Decimal.{ℤ, pos, negsuc, lt_int, show_int, pad}
use oig_proxy.Values.{Floats, Value, null, bool, int, float, str, other, normalize_value_for_text}
use oig_proxy.Queue.{generate_msg_id}
use oig_proxy.Frame.Crc.{Bytes}
use oig_proxy.Frame.Build.{strip_crc_tag, build_frame, parse_frame}
use oig_proxy.Frame.RoundTrip.{parse_frame-build_frame}

-- the element of that name
unfoldable pub element : Bytes → Bytes → Bytes
element name content = b'<' ∷ name ++ (b'>' ∷ content ++ (b'<' ∷ b'/' ∷ name ++ b'>' ∷ []))

abbrev is_zero : ℤ → Bool
is_zero (pos n) = nat_beq n 0
is_zero (negsuc n) = false

module _ (fl : Floats) (render_local render_utc : ℤ → Bytes) where
  open fl use {Float}

  -- a value in an f-string
  unfoldable pub format_value : Value Float → Bytes
  unfolding normalize_value_for_text
  format_value null = codes "None"
  format_value (bool b) = normalize_value_for_text fl (bool b)
  format_value (int n) = normalize_value_for_text fl (int n)
  format_value (float x) = normalize_value_for_text fl (float x)
  format_value (str s) = normalize_value_for_text fl (str s)
  format_value (other s) = normalize_value_for_text fl (other s)

  -- The time of the setting in UTC: the clock's, or that of an id that lies ahead of it.
  unfoldable pub setting_time : ℕ → ℤ → ℤ
  setting_time now id_set = if lt_int (pos now) id_set then id_set else pos now

  unfoldable pub setting_inner :
      (now ver : ℕ) (device table key : Bytes)
      → Value Float
      → (id_set msg_id : ℤ) (confirm : Bytes) → Bytes
  unfolding element format_value setting_time show_int pad
  setting_inner now ver device table key value id_set msg_id confirm =
      element (codes "ID") (show_int msg_id)
      ++ element (codes "ID_Device") device
      ++ element (codes "ID_Set") (show_int id_set)
      ++ codes "<ID_SubD>0</ID_SubD>"
      ++ element (codes "DT") (render_local id_set)
      ++ element (codes "NewValue") (format_value value)
      ++ element (codes "Confirm") confirm
      ++ element (codes "TblName") table
      ++ element (codes "TblItem") key
      ++ codes "<ID_Server>9</ID_Server><mytimediff>0</mytimediff><Reason>Setting</Reason>"
      ++ element (codes "TSec") (render_utc (setting_time now id_set))
      ++ element (codes "ver") (pad 5 ver)

  -- At the clock's reading `now`, with two random numbers.
  unfoldable pub build_setting_frame :
      (now random ver : ℕ) (device table key : Bytes)
      → Value Float
      → (id_set : ℤ) (msg_id : Option ℤ) (confirm : Bytes) → Bytes
  unfolding setting_inner build_frame generate_msg_id
  build_setting_frame now random ver device table key value id_set msg_id confirm =
      let id : ℤ = elim msg_id [ none ↦ pos (generate_msg_id random) | some m ↦ m ] in
      build_frame (setting_inner now ver device table key value id_set id confirm) true

  unfoldable pub build_setting_xml :
      (now random ver : ℕ) (table key : Bytes)
      → Value Float
      → (device : Bytes) (id_set msg_id : ℤ) (confirm : Bytes) → Bytes
  unfolding setting_inner generate_msg_id
  build_setting_xml now random ver table key value device id_set msg_id confirm =
      let id = if is_zero msg_id then pos (generate_msg_id random) else msg_id in
      setting_inner now ver device table key value id_set id confirm

  build_setting_xml-given :
      (now random ver : ℕ) (device table key : Bytes) (value : Value Float) (id_set msg_id : ℤ)
      (confirm : Bytes)
      → is_zero msg_id ≡ false
      → build_setting_xml now random ver table key value device id_set msg_id confirm
        ≡ setting_inner now ver device table key value id_set msg_id confirm
  unfolding build_setting_xml
  build_setting_xml-given now random ver device table key value id_set msg_id confirm h =
      ap
        (λ b.
          setting_inner now ver device table key value id_set
            (if b then pos (generate_msg_id random) else msg_id) confirm)
        h

  -- With a message id that is not 0 the two builders agree, with the same clock and random number:
  -- parsing the frame of the one gives the text of the other, less its CRC tags.
  parse_frame-build_setting_frame :
      (now random ver : ℕ) (device table key : Bytes) (value : Value Float) (id_set msg_id : ℤ)
      (confirm : Bytes)
      → is_zero msg_id ≡ false
      → parse_frame
          (build_setting_frame now random ver device table key value id_set (some msg_id) confirm)
        ≡ some (
            strip_crc_tag (
              strip_crc_tag
                (build_setting_xml now random ver table key value device id_set msg_id confirm)))
  unfolding build_setting_frame
  parse_frame-build_setting_frame now random ver device table key value id_set msg_id confirm h =
      parse_frame-build_frame (setting_inner now ver device table key value id_set msg_id confirm)
        true
      ∙ ap (λ x. some (strip_crc_tag (strip_crc_tag x)))
          (sym
            (build_setting_xml-given now random ver device table key value id_set msg_id confirm h))
