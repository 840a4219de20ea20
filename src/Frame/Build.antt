-- ===== src/Frame/Build.antt =====
-- `strip_crc_tag`, `build_frame`, `parse_frame` and the frames without a setting.
use oig_proxy.Common.{
  ℕ, zero, suc, ◌+◌, ◌-◌, Bool, true, ◌||◌, Option, none, some, [], ◌∷◌, ◌++◌, nat_beq, length,
  is_digit, codes, ◌==◌, text_eq, if◌then◌else◌,
}
use oig_proxy.Common.Decimal.{pad}
use oig_proxy.Frame.Crc.{Bytes, crc16_modbus}
use oig_proxy.Frame.Match.{after, span}

abbrev pub crc_open : Bytes
crc_open = codes "<CRC>"

abbrev pub crc_close : Bytes
crc_close = codes "</CRC>"

abbrev pub frame_open : Bytes
frame_open = codes "<Frame>"

abbrev pub frame_close : Bytes
frame_close = codes "</Frame>"

-- The length of `<CRC>\d+</CRC>`, by the longest run of digits behind the opening tag and what
-- follows the run.
unfoldable pub tag_length : Bytes → Bytes → Option ℕ
unfolding after
tag_length [] tail = none
tag_length (c ∷ cs) tail = elim (after crc_close tail) [
  | none ↦ none
  | some r ↦ some (length (c ∷ cs) + 11)
]

-- The length of a match at the start of the bytes.
unfoldable pub crc_length : Bytes → Option ℕ
unfolding after span tag_length
crc_length s = elim (after crc_open s) [
  | none ↦ none
  | some rest ↦ let (run, tail) = span is_digit rest in tag_length run tail
]

-- The removal of all matches, from the left; the number counts the bytes of a match that are
-- still to be passed over.
unfoldable pub strip_from : ℕ → Bytes → Bytes
unfolding crc_length
strip_from k [] = []
strip_from (suc k) (c ∷ s) = strip_from k s
strip_from zero (c ∷ s) = elim (crc_length (c ∷ s)) [
  | none ↦ c ∷ strip_from 0 s
  | some n ↦ strip_from (n - 1) s
]

unfoldable pub strip_crc_tag : Bytes → Bytes
unfolding strip_from
strip_crc_tag s = strip_from 0 s

-- `f"<CRC>{crc:05d}</CRC>"`
unfoldable pub crc_tag : ℕ → Bytes
unfolding pad
crc_tag crc = crc_open ++ (pad 5 crc ++ crc_close)

abbrev crlf : Bytes
crlf = 13 ∷ 10 ∷ []

unfoldable pub build_frame : Bytes → Bool → Bytes
unfolding strip_crc_tag crc16_modbus crc_tag
build_frame inner add_crlf =
    let inner_wo_crc = strip_crc_tag inner in
    frame_open
    ++ (inner_wo_crc
        ++ (crc_tag (crc16_modbus inner_wo_crc)
            ++ (frame_close ++ (if add_crlf then crlf else []))))

-- `rstrip(b"\r\n")`
unfoldable pub rstrip : Bytes → Bytes
rstrip [] = []
rstrip (c ∷ s) =
    let rest = rstrip s in
    elim rest [ [] ↦ if nat_beq c 13 || nat_beq c 10 then [] else c ∷ [] | d ∷ r ↦ c ∷ d ∷ r ]

-- What stands before `p`, if the bytes end with it.
unfoldable pub before_end : Bytes → Bytes → Option Bytes
before_end p [] = if p == [] then some [] else none
before_end p (c ∷ s) =
    let rest = before_end p s in
    if p == c ∷ s then some [] else elim rest [ none ↦ none | some r ↦ some (c ∷ r) ]

-- The match of `^<Frame>(.*)</Frame>\r?\n?$` on bytes with no line end at their end, less the tag.
unfoldable pub parse_frame : Bytes → Option Bytes
unfolding rstrip after before_end strip_crc_tag
parse_frame frame_bytes = elim (after frame_open (rstrip frame_bytes)) [
  | none ↦ none
  | some rest ↦ elim (before_end frame_close rest) [
    | none ↦ none
    | some inner ↦ some (strip_crc_tag inner)
  ]
]

abbrev pub result_ack : Bytes
result_ack = codes "<Result>ACK</Result>"

abbrev pub result_end : Bytes
result_end = codes "<Result>END</Result>"

unfoldable pub build_ack_only_frame : Bytes
unfolding build_frame
build_ack_only_frame = build_frame result_ack true

unfoldable pub build_getactual_frame : Bytes
unfolding build_frame
build_getactual_frame = build_frame (result_ack ++ codes "<ToDo>GetActual</ToDo>") true

-- The two times as `strftime('%Y-%m-%d %H:%M:%S')` writes them, local and UTC.
unfoldable pub end_time_inner : Bytes → Bytes → Bytes
end_time_inner now_local now_utc =
    result_end
    ++ (codes "<Time>"
        ++ (now_local
            ++ (codes "</Time><UTCTime>" ++ (now_utc ++ codes "</UTCTime><ToDo>GetActual</ToDo>"))))

unfoldable pub build_end_time_frame : Bytes → Bytes → Bytes
unfolding build_frame end_time_inner
build_end_time_frame now_local now_utc = build_frame (end_time_inner now_local now_utc) true
