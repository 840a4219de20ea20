-- ===== src/Frame/Extract.antt =====
-- `extract_frame_from_buffer`, the loops over it, and the names in a frame.
use oig_proxy.Common.{
  ℕ, zero, suc, Option, none, some, List, [], ◌∷◌, ◌++◌, nat_beq, codes, if◌then◌else◌,
}
use oig_proxy.Frame.Crc.{Bytes}
use oig_proxy.Frame.Match.{find, search_tag, search_digits}
use oig_proxy.Frame.Build.{frame_close}

-- The line end behind a frame that belongs to it, and the rest; none for the first half of a CRLF
-- at the end of the buffer.
unfoldable pub line_end : Bytes → Option (Bytes × Bytes)
line_end [] = some ([], [])
line_end (c ∷ []) =
    if nat_beq c 10 then some (10 ∷ [], []) else if nat_beq c 13 then none else some ([], c ∷ [])
line_end (c ∷ d ∷ r) =
    if nat_beq c 13
    then (if nat_beq d 10 then some (13 ∷ 10 ∷ [], r) else some (13 ∷ [], d ∷ r))
    else if nat_beq c 10
    then some (10 ∷ [], d ∷ r)
    else some ([], c ∷ d ∷ r)

-- The frame, if the buffer holds a whole one, and the buffer afterwards.
unfoldable pub extract_frame_from_buffer : Bytes → Option Bytes × Bytes
unfolding find line_end
extract_frame_from_buffer buf = elim (find frame_close buf) [
  | none ↦ (none, buf)
  | some (before, rest) ↦ elim (line_end rest) [
    | none ↦ (none, buf)
    | some (end_bytes, rest') ↦ (some (before ++ (frame_close ++ end_bytes)), rest')
  ]
]

-- `while True: frame = extract_frame_from_buffer(buf); if frame is None: break`, on fuel
unfoldable pub extract_frames : ℕ → Bytes → List Bytes × Bytes
unfolding extract_frame_from_buffer
extract_frames zero buf = ([], buf)
extract_frames (suc fuel) buf = elim ((extract_frame_from_buffer buf).0) [
  | none ↦ ([], buf)
  | some frame ↦
      let (frames, left) = extract_frames fuel (extract_frame_from_buffer buf).1 in
      (frame ∷ frames, left)
]

unfoldable pub infer_table_name : Bytes → Option Bytes
unfolding search_tag
infer_table_name frame = elim (search_tag (codes "TblName") frame) [
  | some g ↦ some g
  | none ↦ search_tag (codes "Result") frame
]

-- The device id, of ASCII digits.
unfoldable pub infer_device_id : Bytes → Option Bytes
unfolding search_digits
infer_device_id frame = search_digits (codes "ID_Device") frame
