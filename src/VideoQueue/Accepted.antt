-- ===== src/VideoQueue/Accepted.antt =====
-- The delivery of a block and the acceptance of a packet keep the invariant.
use tesla_moonlight_ubuntu.Base.{
  ℕ, ◌+◌, ◌*◌, ◌%◌, ◌^◌, ◌<◌, ◌≡◌, refl, sym, ap, ◌∙◌, inl, Bool, true, false, not, List, [], ◌∷◌,
  length, arith, if◌then◌else◌,
}
use mathlib.Core.Path.{subst, ap₂}
use tesla_moonlight_ubuntu.Seq.{is_before16}
use tesla_moonlight_ubuntu.VideoQueue.Types.{RtpPacket, Entry, QueueList, VideoQueue}
use tesla_moonlight_ubuntu.VideoQueue.Pending.{empty_list, queue_packet}
use tesla_moonlight_ubuntu.VideoQueue.Recover.{
  Services, Outcome, complete, incomplete, no_arrays, no_matrix, no_buffers, reconstruct_frame,
}
use tesla_moonlight_ubuntu.VideoQueue.Stage.{
  stage_complete_fec_block, stage_loop, submit_completed_frame, submit_entries,
}
use tesla_moonlight_ubuntu.VideoQueue.Add.{
  AddResult, queued, rejected, count_packet, finish_block, after_attempt, try_deliver,
  accept_packet,
}
use tesla_moonlight_ubuntu.VideoQueue.Window.{InBlock}
use tesla_moonlight_ubuntu.VideoQueue.Valid.{
  IsValid, IsValidBlock, Block, block_of, total_of, length-pending,
}
use tesla_moonlight_ubuntu.VideoQueue.Accept.{queue_packet-IsValid}
use tesla_moonlight_ubuntu.VideoQueue.Deliver.{stage_loop-Done}
use tesla_moonlight_ubuntu.VideoQueue.Complete.{AtLeast-zero}
use tesla_moonlight_ubuntu.VideoQueue.Keep.{keeps, count_packet-block, empty-IsValidBlock}
use tesla_moonlight_ubuntu.VideoQueue.Attempt.{received-InBlock, reconstruct_frame-IsValid}

-- Staging a valid block empties the pending list.
stage-empties :
    (q : VideoQueue) → IsValid q → (stage_complete_fec_block q).pending_fec_block_list ≡ empty_list
unfolding stage_complete_fec_block
stage-empties q v =
    let pending = q.pending_fec_block_list in
    let es = pending.entries in
    let base = q.buffer_lowest_sequence_number in
    let time = q.buffer_first_recv_time_ms in
    let hd = v.few_data in
    let hp = v.few_parity in
    let fits = length-pending (block_of q) v in
    let fuel = 2 * pending.count + 2 in
    let same_count : pending.count ≡ length es = omega (arith, v.count) in
    let d =
      stage_loop-Done base q.buffer_data_packets (total_of q)
        (InBlock base q.buffer_data_packets (total_of q)) v.base_word (omega arith) (λ e b. b) time
        fuel 0 es q.completed_fec_block_list (omega arith) (omega arith) v.members v.distinct
        (AtLeast-zero base es) (inl (omega arith)) in
    let start : (base + 0) % 2 ^ 16 ≡ base = omega (arith, v.base_word) in
    let list : ◌≡◌ {A = QueueList} (record { entries = es; count = length es }) pending =
      ground arith in
    ap₂ (λ s l. (stage_loop fuel time s l q.completed_fec_block_list).0) (sym start) (sym list)
    ∙ d.emptied

stage-IsValid : (q : VideoQueue) → IsValid q → IsValid (stage_complete_fec_block q)
unfolding stage_complete_fec_block
stage-IsValid q v =
    let b : Block = block_of q in
    let same : record b { pending = empty_list } ≡ block_of (stage_complete_fec_block q) =
      ap (λ l. record b { pending = l }) (sym (stage-empties q v)) in
    subst IsValidBlock same (empty-IsValidBlock (block_of q) v)

submit_entries-block :
    (es : List Entry) (q : VideoQueue) → block_of (submit_entries es q) ≡ block_of q
unfolding submit_entries
submit_entries-block [] q = refl
submit_entries-block (e ∷ es) q = submit_entries-block es _

finish_block-block : (q : VideoQueue) → block_of q ≡ block_of (finish_block q)
unfolding finish_block submit_completed_frame
finish_block-block q = ground (arith, submit_entries-block q.completed_fec_block_list.entries q)

after_attempt-IsValid : (o : Outcome) (q : VideoQueue) → IsValid q → IsValid (after_attempt o q)
unfolding after_attempt
after_attempt-IsValid complete q v =
    keeps (stage_complete_fec_block q) (finish_block (stage_complete_fec_block q))
      (finish_block-block (stage_complete_fec_block q)) (stage-IsValid q v)
after_attempt-IsValid incomplete q v = v
after_attempt-IsValid no_arrays q v = v
after_attempt-IsValid no_matrix q v = v
after_attempt-IsValid no_buffers q v = v

try_deliver-IsValid : (v : Services) (q : VideoQueue) → IsValid q → IsValid (try_deliver v q)
unfolding try_deliver
try_deliver-IsValid v q h =
    after_attempt-IsValid (reconstruct_frame v q).0 (reconstruct_frame v q).1
      (reconstruct_frame-IsValid v q h)

pub reject_or-IsValid :
    (b : Bool) (q : VideoQueue) (x : AddResult × VideoQueue)
    → IsValid q
    → (b ≡ false → IsValid x.1)
    → IsValid (if b then (rejected, q) else x).1
reject_or-IsValid true q x hq hx = hq
reject_or-IsValid false q x hq hx = hx refl

pub accept_packet-IsValid :
    (v : Services) (q : VideoQueue) (p : RtpPacket) (len : ℕ)
    → IsValid q
    → p.sequence_number < 2 ^ 16
    → is_before16 p.sequence_number q.next_contiguous_sequence_number ≡ false
    → IsValid (accept_packet v q p len).1
unfolding accept_packet
accept_packet-IsValid v q p len h w after =
    reject_or-IsValid (is_before16 q.buffer_highest_sequence_number s) q queue_it h (λ below.
      counted (queue_packet q p len parity false).0 (queue_packet q p len parity false).1
        (queue_packet-IsValid q p len parity false h (received-InBlock q p len h w after below)))
  where
    s : ℕ
    s = p.sequence_number

    parity : Bool
    parity = not (is_before16 s q.buffer_first_parity_sequence_number)

    queue_it : AddResult × VideoQueue
    queue_it =
        let (ok, q') = queue_packet q p len parity false in
        if ok then (queued, try_deliver v (count_packet q' s)) else (rejected, q')

    counted :
        (ok : Bool) (r : VideoQueue)
        → IsValid r
        → IsValid
            (if◌then◌else◌ {A = AddResult × VideoQueue} ok
              (queued, try_deliver v (count_packet r s))
              (rejected, r)).1
    counted true r hr =
        try_deliver-IsValid v (count_packet r s)
          (keeps r (count_packet r s) (count_packet-block r s) hr)
    counted false r hr = hr
