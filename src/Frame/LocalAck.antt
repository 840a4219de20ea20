-- ===== src/Frame/LocalAck.antt =====
-- proxy/local_ack.py: the answer that the proxy gives in place of the cloud.
use oig_proxy.Common.{
  ◌≡◌, ◌∙◌, refl, sym, subst, text_beq_iff, Bool, true, false, ◌||◌, none, some, ◌++◌, codes, ◌==◌,
  text_eq, arith, if◌then◌else◌,
}
use oig_proxy.Frame.Crc.{Bytes}
use oig_proxy.Frame.Match.{after}
use oig_proxy.Frame.Build.{
  result_ack, strip_crc_tag, parse_frame, end_time_inner, build_ack_only_frame,
  build_getactual_frame, build_end_time_frame,
}
use oig_proxy.Frame.RoundTrip.{parse_frame-build_frame}

-- `startswith`
unfoldable pub starts_with : Bytes → Bytes → Bool
unfolding after
starts_with p s = elim (after p s) [ none ↦ false | some r ↦ true ]

-- With the readings of the clock that a frame with the time takes.
unfoldable pub build_local_ack : (now_local now_utc table_name : Bytes) → Bytes
unfolding build_end_time_frame build_getactual_frame build_ack_only_frame starts_with
build_local_ack now_local now_utc table_name =
    if table_name == codes "END"
    then build_end_time_frame now_local now_utc
    else if table_name == codes "IsNewSet"
    then build_end_time_frame now_local now_utc
    else if table_name == codes "IsNewWeather" || table_name == codes "IsNewFW"
    then build_end_time_frame now_local now_utc
    else if starts_with (codes "tbl_") table_name
    then if table_name == codes "tbl_actual" then build_getactual_frame else build_ack_only_frame
    else build_ack_only_frame

-- The names that the cloud answers with the end of the dialogue and the time.
abbrev pub ends_dialogue : Bytes → Bool
ends_dialogue table_name =
    table_name == codes "END"
    || table_name == codes "IsNewSet"
    || table_name == codes "IsNewWeather"
    || table_name == codes "IsNewFW"

-- what a local answer tells the box
abbrev pub answer : (now_local now_utc table_name : Bytes) → Bytes
answer now_local now_utc table_name =
    if ends_dialogue table_name
    then strip_crc_tag (strip_crc_tag (end_time_inner now_local now_utc))
    else if table_name == codes "tbl_actual"
    then codes "<Result>ACK</Result><ToDo>GetActual</ToDo>"
    else codes "<Result>ACK</Result>"

parse_frame-ack : parse_frame build_ack_only_frame ≡ some (codes "<Result>ACK</Result>")
unfolding build_ack_only_frame
parse_frame-ack = parse_frame-build_frame result_ack true ∙ (unfold strip_crc_tag in refl)

parse_frame-getactual :
    parse_frame build_getactual_frame ≡ some (codes "<Result>ACK</Result><ToDo>GetActual</ToDo>")
unfolding build_getactual_frame
parse_frame-getactual =
    parse_frame-build_frame (result_ack ++ codes "<ToDo>GetActual</ToDo>") true
    ∙ (unfold strip_crc_tag in refl)

parse_frame-end :
    (now_local now_utc : Bytes)
    → parse_frame (build_end_time_frame now_local now_utc)
      ≡ some (strip_crc_tag (strip_crc_tag (end_time_inner now_local now_utc)))
unfolding build_end_time_frame
parse_frame-end now_local now_utc = parse_frame-build_frame (end_time_inner now_local now_utc) true

starts_with_actual :
    (t : Bytes) → (t == codes "tbl_actual") ≡ true → starts_with (codes "tbl_") t ≡ true
unfolding starts_with
starts_with_actual t h =
    subst (λ s. starts_with (codes "tbl_") s ≡ true)
      (sym ((text_beq_iff t (codes "tbl_actual")).0 h)) refl

parse_frame-branches :
    (ending newset weather fw known actual : Bool) (e g a x y z : Bytes)
    → parse_frame e ≡ some x
    → parse_frame g ≡ some y
    → parse_frame a ≡ some z
    → (actual ≡ true → known ≡ true)
    → parse_frame (
        if ending
        then e
        else if newset
        then e
        else if weather || fw
        then e
        else if known
        then (if actual then g else a)
        else a)
      ≡ some (if ending || newset || weather || fw then x else if actual then y else z)
parse_frame-branches ending newset weather fw known actual e g a x y z p q r h = ground arith

-- Whatever the table's name, the local answer is a frame that parses, and it tells the box the end
-- of the dialogue and the time for the four names that the cloud so answers, to send its actual
-- values for `tbl_actual`, and no more than that the frame has arrived for any other name.
parse_frame-build_local_ack :
    (now_local now_utc table_name : Bytes)
    → parse_frame (build_local_ack now_local now_utc table_name)
      ≡ some (answer now_local now_utc table_name)
unfolding build_local_ack
parse_frame-build_local_ack now_local now_utc table_name =
    parse_frame-branches (table_name == codes "END") (table_name == codes "IsNewSet")
      (table_name == codes "IsNewWeather") (table_name == codes "IsNewFW") _ _ _ _ _ _ _ _
      (parse_frame-end now_local now_utc) parse_frame-getactual parse_frame-ack
      (starts_with_actual table_name)
