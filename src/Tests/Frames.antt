-- ===== src/Tests/Frames.antt =====
-- Concrete frames.
use oig_proxy.Common.{◌≡◌, some, true, codes, arith}
use oig_proxy.Frame.Crc.{Bytes}
use oig_proxy.Frame.Extract.{extract_frames}
use oig_proxy.Frame.Build.{strip_crc_tag, build_frame, parse_frame}
use oig_proxy.Frame.RoundTrip.{parse_frame-build_frame}
use oig_proxy.Frame.Stream.{IsCut, extract_frames_lem}

abbrev two_and_a_part : Bytes
two_and_a_part = codes "<Frame>a</Frame>\r\n<Frame>b</Frame><Frame>c"

extract_frames_example :
    IsCut two_and_a_part (extract_frames 50 two_and_a_part).0 (extract_frames 50 two_and_a_part).1
extract_frames_example = extract_frames_lem 50 two_and_a_part (omega arith)

parse_frame-build_frame_example :
    parse_frame (build_frame (codes "<a>1</a><CRC>7</CRC>") true)
    ≡ some (strip_crc_tag (strip_crc_tag (codes "<a>1</a><CRC>7</CRC>")))
parse_frame-build_frame_example = parse_frame-build_frame (codes "<a>1</a><CRC>7</CRC>") true
