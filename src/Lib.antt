-- ===== src/Lib.antt =====
-- The native streaming core of this repository, the C library under
-- moonlight-web-stream-tsla/moonlight-common-sys/moonlight-common-c/src/ (paths below are from
-- there), which the Rust bridge calls to receive a desktop stream.
--
-- How the parts work together. The host sends video and audio as RTP packets over UDP. The receive
-- thread of VideoStream.c gives each video packet to the video queue (RtpVideoQueue.c), which gathers
-- the packets of one FEC block, recovers lost ones, and hands whole frames to the depacketizer. The
-- receive thread of AudioStream.c does the same with the audio queue (RtpAudioQueue.c), which hands
-- single packets to the decoder. Both queues compare sequence numbers that wrap round
-- (Limelight-internal.h). Decoded units, input events and control messages pass between threads
-- through the blocking queue (LinkedBlockingQueue.c). The depacketizer (VideoDepacketizer.c) makes
-- decode units of the packets, and asks the host for frames to recover with after a loss. The
-- connection goes up and down in stages (Connection.c). Before the streams start, the host is asked
-- for them by RTSP messages (RtspParser.c). Control messages and video headers are read and
-- written through the byte buffer (ByteBuffer.c).
--
-- Which file models which part:
--   - Base: the names, operators and list lemmas that the parts share.
--   - Seq: `U16` and `isBefore16/24/32` of Limelight-internal.h.
--   - ByteBuffer: ByteBuffer.c; `BbGet16/32/64` are one function of the width, and so are
--     `BbPut16/32/64`. Positions are unsigned 32-bit words.
--   - BlockingQueue: LinkedBlockingQueue.c, on a heap from pointers to entries. Each region between
--     the lock and the unlock of the mutex is one step. `Fifo` is the specification, `Chain` says
--     what a doubly linked list in the heap is.
--   - VideoQueue: RtpVideoQueue.c. `Types` has the structs, `Pending` the lists, the FEC status
--     report and `queuePacket`, `Recover` has `reconstructFrame`, `Stage` has
--     `stageCompleteFecBlock` and `submitCompletedFrame`, `Add` has `RtpvAddPacket`. The calls that
--     leave the file are a list of events. The other files are proofs.
--   - AudioQueue: RtpAudioQueue.c. `Blocks` has the start, the end, the block cache and
--     `completeFecBlock` and the checks of `validateFecBlockState` on sequence numbers, `Find` has
--     `getFecBlockForRtpPacket`, `Add` has `RtpaAddPacket`, `Dequeue` has `RtpaGetQueuedPacket`. In
--     these the list of blocks is a sequence. `Links` has its pointers in a memory of their own: the
--     writes of `getFecBlockForRtpPacket` and `freeFecBlockHead`, which are all that change them until
--     the queue is cleaned up, and the checks of `validateFecBlockState` on links. The other files are
--     proofs.
--   - Depacketizer: VideoDepacketizer.c. `Types` has the static variables as a record, `Nal` the
--     start sequences and the loops over them, `Drop` has `dropFrameState`, `notifyFrameLost`,
--     `requestDecoderRefresh` and `LiCompleteVideoFrame`, `Fragment` has `queueFragment` and the slow
--     path, `Reassemble` has `reassembleFrame`, `Header` the frame header, `Process` the rest of
--     `processRtpPayload` and `queueRtpPacket`. The calls that leave the file are a list of actions,
--     and so are the decode units it hands over. Each function is one step, so a call of the decoder's
--     thread in the middle of a packet's is left out. The other files are proofs.
--   - Rtsp: RtspParser.c. `Types` has the message, `Types.Text` the functions on strings that it
--     calls, `Options` the option list, `Serialize` has `getMessageLength` and
--     `serializeRtspMessage`, `Parse` has `parseRtspMessage`, where a read behind the buffer is a
--     result of its own. The other files are proofs.
--   - Connection: Connection.c. The stages are numbers, as in Limelight.h, and one function goes
--     through them where `LiStartConnection` has a copy of the same lines for each. `Stop`, `Stages`,
--     `Start` and `Settings` are proofs.
--   - Stun: SimpleStun.c, from the response received on. A read behind the bytes received is a result
--     of its own.
--
-- Numbers are natural numbers with the wrap of their C type written out. A C list of queue entries is
-- the sequence of its entries with the counter that the code keeps; the blocking queue and the links of
-- the audio queue keep their pointers. The outer loop of `stageCompleteFecBlock` is on fuel, with twice the count
-- of the pending list and two more: each entry takes at most one pass that finds nothing and one that
-- takes it, and the theorem on that function is about the loop as it ends. The loops of the
-- depacketizer over NAL units are on fuel too, the number of bytes that are left: each round takes at
-- least one; so is the loop of the RTSP parser over the options, on the length of the message, and
-- the search of the STUN client through the attributes, on the length of the response.
--
-- Parameters: of both RTP queues (`Services`) the Reed-Solomon library, `malloc` and `calloc`, the
-- packet size and the audio packet duration that the connection set up; of the depacketizer (`Host`)
-- the negotiated format, the host's version, the decoder's capabilities and its `submitDecodeUnit`; of
-- the connection the errors that the functions of the other files return, and `strtol`. A release build on a little-endian
-- host is modelled: assertions and the FEC validation mode of debug builds are off, and log lines are
-- left out.
--
-- Not modelled: the other files of the library (the RTSP handshake, SDP, control and input streams,
-- the port tests, platform layer), the vendored enet and reedsolomon, and the Rust, TypeScript,
-- Python and shell parts of the repository.
pub mod AudioQueue
pub mod Base
pub mod BlockingQueue
pub mod ByteBuffer
pub mod Connection
pub mod Depacketizer
pub mod Rtsp
pub mod Seq
pub mod Stun
pub mod VideoQueue
