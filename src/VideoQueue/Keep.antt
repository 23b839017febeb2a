-- ===== src/VideoQueue/Keep.antt =====
-- The steps of `RtpvAddPacket` that leave the block alone or start it anew keep the invariant.
use tesla_moonlight_ubuntu.Base.{ℕ, ◌+◌, ◌*◌, ◌/◌, ◌^◌, ◌<◌, ◌≤◌, ◌≡◌, refl, arith}
use mathlib.Core.Path.{subst}
use tesla_moonlight_ubuntu.Seq.{diff16}
use tesla_moonlight_ubuntu.VideoQueue.Types.{
  RtpPacket, VideoQueue, fec_index, data_packets, percentage,
}
use tesla_moonlight_ubuntu.VideoQueue.Pending.{empty_list, report_final_frame_fec_status}
use tesla_moonlight_ubuntu.VideoQueue.Recover.{predict_loss, withdraw_prediction}
use tesla_moonlight_ubuntu.VideoQueue.Add.{
  give_up_frame, report_gap, reset_block, begin_block, count_packet,
}
use tesla_moonlight_ubuntu.VideoQueue.Valid.{IsValid, IsValidBlock, Block, block_of}

-- A function that leaves the block alone keeps the invariant.
pub keeps : (q r : VideoQueue) → block_of q ≡ block_of r → IsValid q → IsValid r
keeps q r same v = subst IsValidBlock same v

pub predict_loss-block : (q : VideoQueue) → block_of q ≡ block_of (predict_loss q)
unfolding predict_loss
predict_loss-block q = ground arith

pub withdraw_prediction-block : (q : VideoQueue) → block_of q ≡ block_of (withdraw_prediction q)
unfolding withdraw_prediction
withdraw_prediction-block q = ground arith

pub report-block : (q : VideoQueue) → block_of q ≡ block_of (report_final_frame_fec_status q)
unfolding report_final_frame_fec_status
report-block q = refl

pub count_packet-block : (q : VideoQueue) (s : ℕ) → block_of q ≡ block_of (count_packet q s)
unfolding count_packet
count_packet-block q s = ground arith

parity_bound : (a b : ℕ) → a < 2 ^ 10 → b < 2 ^ 8 → (a * b + 99) / 100 < 2 ^ 12
parity_bound a b ha hb = let le : a * b ≤ 1023 * 255 = grind arith in omega arith

-- The pending list of a valid queue may be dropped.
pub empty-IsValidBlock :
    (b : Block) → IsValidBlock b → IsValidBlock (record b { pending = empty_list })
empty-IsValidBlock b v = record {
  base_word = v.base_word;
  few_data = v.few_data;
  few_parity = v.few_parity;
  first_parity = v.first_parity;
  highest = v.highest;
  highest_word = v.highest_word;
  members = tt;
  distinct = tt;
  count = refl;
  next_word = v.next_word;
  next_inside = v.next_inside;
  fast = λ f. tt;
}

pub reset_block-IsValid :
    (q : VideoQueue) (p : RtpPacket) (now : ℕ)
    → q.pending_fec_block_list ≡ empty_list
    → IsValid (reset_block q p now)
unfolding reset_block
reset_block-IsValid q p now e =
    let lowest = diff16 p.sequence_number (fec_index p.nv) in
    let par = parity_bound (data_packets p.nv) (percentage p.nv) (omega arith) (omega arith) in
    record {
      base_word = omega arith;
      few_data = omega arith;
      few_parity = par;
      first_parity = refl;
      highest = omega arith;
      highest_word = omega arith;
      members = rw e tt;
      distinct = rw e tt;
      count = rw e refl;
      next_word = omega arith;
      next_inside = omega arith;
      fast = λ f. rw e tt;
    }

-- A queue that gives a frame up has nothing pending.
pub give_up_frame-pending :
    (q : VideoQueue) (next : ℕ) → (give_up_frame q next).pending_fec_block_list ≡ empty_list
unfolding give_up_frame
give_up_frame-pending q next = refl

pub report_gap-pending :
    (q : VideoQueue) (p : RtpPacket)
    → (report_gap q p).pending_fec_block_list ≡ q.pending_fec_block_list
unfolding report_gap
report_gap-pending q p = ground arith

pub begin_block-IsValid : (q : VideoQueue) (p : RtpPacket) (now : ℕ) → IsValid (begin_block q p now)
unfolding begin_block
begin_block-IsValid q p now = reset_block-IsValid _ p now (report_gap-pending _ p)

-- A new block begins at its first packet's number less its index.
pub begin_block-next :
    (q : VideoQueue) (p : RtpPacket) (now : ℕ)
    → (begin_block q p now).next_contiguous_sequence_number
      ≡ diff16 p.sequence_number (fec_index p.nv)
unfolding begin_block reset_block
begin_block-next q p now = refl
