-- ===== src/VideoQueue/Attempt.antt =====
-- `reconstructFrame` keeps the invariant, and a received packet that passes the checks belongs to
-- the block.
use tesla_moonlight_ubuntu.Base.{
  ℕ, zero, suc, ◌+◌, ◌^◌, ◌<◌, ◌≡◌, refl, Bool, true, false, not, ◌&&◌, ◌==◌, Option, none, some,
  List, ltb, arith, if◌then◌else◌,
}
use tesla_moonlight_ubuntu.Seq.{u16, diff16, is_before16}
use tesla_moonlight_ubuntu.VideoQueue.Types.{RtpPacket, VideoQueue, data_offset}
use tesla_moonlight_ubuntu.VideoQueue.Pending.{queue_packet, report_final_frame_fec_status}
use tesla_moonlight_ubuntu.VideoQueue.Recover.{
  Services, Outcome, complete, incomplete, no_arrays, no_matrix, no_buffers, reconstruct_frame,
  recover, after_reconstruct, shards_from, submit_recovered, fill_headers, is_sane, predict_loss,
  withdraw_prediction, total_packets,
}
use tesla_moonlight_ubuntu.VideoQueue.Valid.{IsValid, total_of}
use tesla_moonlight_ubuntu.VideoQueue.Accept.{EntryIn, queue_packet-IsValid}
use tesla_moonlight_ubuntu.VideoQueue.Keep.{
  keeps, predict_loss-block, withdraw_prediction-block, report-block,
}

-- A received packet that passes both checks of its number belongs to the block.
pub received-InBlock :
    (q : VideoQueue) (p : RtpPacket) (len : ℕ)
    → IsValid q
    → p.sequence_number < 2 ^ 16
    → is_before16 p.sequence_number q.next_contiguous_sequence_number ≡ false
    → is_before16 q.buffer_highest_sequence_number p.sequence_number ≡ false
    → EntryIn q p len (not (is_before16 p.sequence_number q.buffer_first_parity_sequence_number))
unfolding is_before16
received-InBlock q p len v w after before =
    let hb = v.base_word in
    let hd = v.few_data in
    let hp = v.few_parity in
    let hf = v.first_parity in
    let hh = v.highest in
    let hw = v.highest_word in
    let hn = v.next_word in
    let hi = v.next_inside in
    let inside : diff16 p.sequence_number q.buffer_lowest_sequence_number < total_of q =
      ground arith in
    record { word = w; inside = inside; kind = ground arith }

-- A property of both branches of a test.
pub if_both {ℓ} :
    {A : Type ℓ} (P : A → Type 0) (b : Bool) (x y : A)
    → (b ≡ true → P x)
    → P y
    → P (if b then x else y)
if_both P true x y hx hy = hx refl
if_both P false x y hx hy = hy

recovered-InBlock :
    (q : VideoQueue) (i : ℕ) (p : RtpPacket) (len : ℕ)
    → IsValid q
    → i < q.buffer_data_packets
    → EntryIn q (fill_headers q i p) len false
unfolding fill_headers
recovered-InBlock q i p len v lt =
    let hb = v.base_word in
    let hd = v.few_data in
    let at : diff16 (u16 (i + q.buffer_lowest_sequence_number)) q.buffer_lowest_sequence_number
        ≡ i =
      omega arith in
    record { word = omega arith; inside = omega arith; kind = ground arith }

-- The submission of recovered packets keeps the invariant.
submit_recovered-IsValid :
    (v : Services) (missing : ℕ → Bool) (recovered : ℕ → RtpPacket) (i n : ℕ) (ok : Bool)
    (q : VideoQueue)
    → IsValid q
    → IsValid (submit_recovered v missing recovered i n ok q).1
unfolding submit_recovered
submit_recovered-IsValid v missing recovered i zero ok q h = h
submit_recovered-IsValid v missing recovered i (suc n) ok q h =
    submit_recovered-IsValid v missing recovered (i + 1) n _ _ (
      if_both IsValid used after q
        (λ u.
          queue_packet-IsValid q p (v.packet_size + data_offset p) false true h
            (recovered-InBlock q i (recovered i) (v.packet_size + data_offset p) h (ground arith)))
        h)
  where
    p : RtpPacket
    p = fill_headers q i (recovered i)

    used : Bool
    used = (missing i && (ok && ltb i q.buffer_data_packets)) && is_sane q i p.nv.flags

    after : VideoQueue
    after = (queue_packet q p (v.packet_size + data_offset p) false true).1

reported-IsValid :
    (b : Bool) (q : VideoQueue)
    → IsValid q
    → IsValid (if b then q else report_final_frame_fec_status q)
reported-IsValid b q h =
    if_both IsValid b q (report_final_frame_fec_status q) (λ e. h)
      (keeps q (report_final_frame_fec_status q) (report-block q) h)

after_reconstruct-IsValid :
    (v : Services) (q : VideoQueue) (shards : List (Option RtpPacket))
    (result : Option (ℕ → RtpPacket))
    → IsValid q
    → IsValid (after_reconstruct v q shards result).1
unfolding after_reconstruct
after_reconstruct-IsValid v q shards none h = reported-IsValid _ q h
after_reconstruct-IsValid v q shards (some recovered) h =
    submit_recovered-IsValid v _ recovered 0 (total_packets q) true _ (reported-IsValid _ q h)

-- A step that may fail with the queue as it is.
or_else-IsValid :
    (b : Bool) (o : Outcome) (q : VideoQueue) (x : Outcome × VideoQueue)
    → IsValid q
    → IsValid x.1
    → IsValid (if b then (o, q) else x).1
or_else-IsValid true o q x hq hx = hq
or_else-IsValid false o q x hq hx = hx

recover-IsValid : (v : Services) (q : VideoQueue) → IsValid q → IsValid (recover v q).1
unfolding recover
recover-IsValid v q h = or_else-IsValid (not (v.arrays_ok total)) no_arrays q matrix h (
    or_else-IsValid (not (v.matrix_ok data_total q.buffer_parity_packets)) no_matrix q buffers h (
      or_else-IsValid (not (v.buffers_ok total)) no_buffers q result h (
        after_reconstruct-IsValid v q shards
          (v.reconstruct data_total q.buffer_parity_packets shards) h)))
  where
    total : ℕ
    total = total_packets q

    data_total : ℕ
    data_total = q.buffer_data_packets

    shards : List (Option RtpPacket)
    shards = shards_from v q 0 total

    result : Outcome × VideoQueue
    result = after_reconstruct v q shards (v.reconstruct data_total q.buffer_parity_packets shards)

    buffers : Outcome × VideoQueue
    buffers = if not (v.buffers_ok total) then (no_buffers, q) else result

    matrix : Outcome × VideoQueue
    matrix =
        if not (v.matrix_ok data_total q.buffer_parity_packets) then (no_matrix, q) else buffers

pub reconstruct_frame-IsValid :
    (v : Services) (q : VideoQueue) → IsValid q → IsValid (reconstruct_frame v q).1
unfolding reconstruct_frame
reconstruct_frame-IsValid v q h =
    or_else-IsValid (ltb q.pending_fec_block_list.count q.buffer_data_packets) incomplete
      (predict_loss q) enough (keeps q (predict_loss q) (predict_loss-block q) h)
      (or_else-IsValid (q.received_data_packets == q.buffer_data_packets) complete w old valid (
        or_else-IsValid (ltb v.app_version_major 5) incomplete w (recover v w) valid
          (recover-IsValid v w valid)))
  where
    w : VideoQueue
    w = withdraw_prediction q

    valid : IsValid w
    valid = keeps q (withdraw_prediction q) (withdraw_prediction-block q) h

    old : Outcome × VideoQueue
    old = if ltb v.app_version_major 5 then (incomplete, w) else recover v w

    enough : Outcome × VideoQueue
    enough = if q.received_data_packets == q.buffer_data_packets then (complete, w) else old
