-- ===== src/AudioQueue.antt =====
-- RtpAudioQueue.c: the queue that puts the RTP packets of the audio stream in order, recovers lost
-- ones from the two FEC packets of each four data packets, and gives up on what stays lost. The
-- state is in `Types`, the code in `Blocks`, `Find`, `Add` and `Dequeue`, and the pointers between
-- the blocks in `Links`.
pub mod Types
pub mod Blocks
pub mod Find
pub mod Add
pub mod Dequeue
pub mod Valid
pub mod Insert
pub mod Found
pub mod Step
pub mod Receive
pub mod Arrive
pub mod Leave
pub mod Reach
pub mod Served
pub mod Cache
pub mod Links
mod Tests
