-- ===== src/Rtsp.antt =====
-- RtspParser.c and Rtsp.h: RTSP messages, from and to text.
pub mod Types
pub mod Options
pub mod Serialize
pub mod Parse
mod Tests
