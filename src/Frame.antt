-- ===== src/Frame.antt =====
-- protocol/crc.py, protocol/frame.py, protocol/frames.py and proxy/local_ack.py, over bytes. A text
-- that is written into a frame is taken by its UTF-8 bytes.
pub mod Crc
pub mod Match
pub mod Build
pub mod Extract
pub mod Stream
pub mod Strip
pub mod RoundTrip
pub mod LocalAck
pub mod Setting
pub mod Parse
pub mod Ack
pub mod Fields
pub mod CzechTime
