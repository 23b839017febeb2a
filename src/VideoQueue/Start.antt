-- ===== src/VideoQueue/Start.antt =====
-- The start of a new block of the video queue, from any queue.
use tesla_moonlight_ubuntu.Base.{
  ℕ, ◌^◌, ◌<◌, ◌≡◌, Bool, true, false, not, ◌&&◌, ◌==◌, arith, if◌then◌else◌,
}
use tesla_moonlight_ubuntu.Seq.{is_before16}
use tesla_moonlight_ubuntu.VideoQueue.Types.{RtpPacket, VideoQueue, add_u32, current_block}
use tesla_moonlight_ubuntu.VideoQueue.Pending.{empty_list, report_final_frame_fec_status}
use tesla_moonlight_ubuntu.VideoQueue.Add.{give_up_frame, begin_block, start_block}
use tesla_moonlight_ubuntu.VideoQueue.Valid.{IsValid}
use tesla_moonlight_ubuntu.VideoQueue.Keep.{
  give_up_frame-pending, begin_block-IsValid, begin_block-next,
}

-- The start leaves a valid queue, in which the packet that began it is not behind, or drops all that
-- is pending.
pub record Started (p : RtpPacket) (out : Bool × VideoQueue) : Type 0 where
  pub valid : out.0 ≡ true → IsValid out.1
  pub ahead :
      out.0 ≡ true → is_before16 p.sequence_number out.1.next_contiguous_sequence_number ≡ false
  pub dropped : out.0 ≡ false → out.1.pending_fec_block_list ≡ empty_list

ahead_of_start :
    (q : VideoQueue) (p : RtpPacket) (now : ℕ)
    → p.sequence_number < 2 ^ 16
    → is_before16 p.sequence_number (begin_block q p now).next_contiguous_sequence_number ≡ false
unfolding is_before16
ahead_of_start q p now w = ground (arith, begin_block-next q p now)

choose-Started :
    (p : RtpPacket) (b : Bool) (x y : Bool × VideoQueue)
    → Started p x
    → Started p y
    → Started p (if b then x else y)
choose-Started p true x y hx hy = hx
choose-Started p false x y hx hy = hy

given_up-Started :
    (p : RtpPacket) (q : VideoQueue) (next : ℕ) → Started p (false, give_up_frame q next)
given_up-Started p q next = record {
  valid = λ e. cc;
  ahead = λ e. cc;
  dropped = λ e. give_up_frame-pending q next;
}

pub start_block-Started :
    (q : VideoQueue) (p : RtpPacket) (now : ℕ)
    → p.sequence_number < 2 ^ 16
    → Started p (start_block q p now)
unfolding start_block
start_block-Started q p now w =
    choose-Started p skipped (false, give_up_frame told (add_u32 q.current_frame_number 1)) rest
      (given_up-Started p told (add_u32 q.current_frame_number 1))
      (choose-Started p (not (current_block p.nv == expected)) gap (true, begin_block told p now)
        (given_up-Started p (report_final_frame_fec_status told) (add_u32 p.nv.frame_index 1))
        (record {
          valid = λ e. begin_block-IsValid told p now;
          ahead = λ e. ahead_of_start told p now w;
          dropped = λ e. cc;
        }))
  where
    waiting : Bool
    waiting = not (q.pending_fec_block_list.count == 0)

    told : VideoQueue
    told = if waiting then report_final_frame_fec_status q else q

    expected : ℕ
    expected =
        if q.current_frame_number == p.nv.frame_index then q.multi_fec_current_block_number else 0

    skipped : Bool
    skipped =
        waiting
        && (not (q.multi_fec_last_block_number == 0)
            && (q.current_frame_number == p.nv.frame_index))

    gap : Bool × VideoQueue
    gap = (false, give_up_frame (report_final_frame_fec_status told) (add_u32 p.nv.frame_index 1))

    rest : Bool × VideoQueue
    rest = if not (current_block p.nv == expected) then gap else (true, begin_block told p now)
