-- ===== src/Depacketizer.antt =====
-- VideoDepacketizer.c: from the data packets of a frame, in order, to the decode units that the
-- video decoder takes.
pub mod Types
pub mod Nal
pub mod Drop
pub mod Fragment
pub mod Reassemble
pub mod Header
pub mod Process
pub mod Valid
pub mod Keep
pub mod Packet
pub mod First
pub mod Reach
pub mod Limit
pub mod Lost
pub mod Whole
pub mod Ending
mod Tests
