-- ===== src/VideoQueue.antt =====
-- RtpVideoQueue.c: the queue that gathers the RTP packets of one FEC block of a video frame,
-- recovers lost ones, puts the data packets in order and hands whole frames to the depacketizer.
-- The state and its parts are in `Types`, the code in `Pending`, `Recover`, `Stage` and `Add`; the
-- proofs are in the other children.
pub mod Types
pub mod Pending
pub mod Recover
pub mod Stage
pub mod Add
pub mod Window
pub mod Scan
pub mod Order
pub mod Deliver
pub mod Complete
pub mod Valid
pub mod Accept
pub mod Keep
pub mod Attempt
pub mod Accepted
pub mod Start
pub mod Reach
mod Tests
