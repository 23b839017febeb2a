-- ===== src/Depacketizer/First/Arrive.antt =====
-- The arrival of a packet and the loss of a frame, in an armed state.
use tesla_moonlight_ubuntu.Base.{
  ℕ, ◌-◌, ◌≡◌, Bool, false, not, ◌&&◌, arith, ltb, holds_if, if◌then◌else◌,
}
use tesla_moonlight_ubuntu.VideoQueue.Types.{NvVideoPacket, current_block}
use tesla_moonlight_ubuntu.Depacketizer.Types.{
  Host, request_idr_frame, detected_frame_loss, Depacketizer, act, add_u32,
}
use tesla_moonlight_ubuntu.Depacketizer.Drop.{drop_frame_state, lose_frame, notify_frame_lost}
use tesla_moonlight_ubuntu.Depacketizer.Nal.{BufferDesc}
use tesla_moonlight_ubuntu.Depacketizer.Fragment.{queue_fragment}
use tesla_moonlight_ubuntu.Depacketizer.Header.{is_parsed, parse_header}
use tesla_moonlight_ubuntu.Depacketizer.Process.{
  begin_frame, append_parsed, finish_frame, append_payload, payload_of, take_in, frame_cut,
  index_of, is_first_packet, is_last_packet,
}
use tesla_moonlight_ubuntu.Depacketizer.First.{
  IsArmed, IsBlind, IsArmed-act, IsArmed-IsBlind, IsArmed-drop,
}
use tesla_moonlight_ubuntu.Depacketizer.First.Deliver.{IsArmed-finish}
use tesla_moonlight_ubuntu.Depacketizer.First.Take.{
  IsDecoding, IsAppended, IsDecoding-begin, IsDecoding-header, IsDecoding-fragment,
  IsDecoding-parsed,
}

-- A frame that is given up leaves an armed state.
pub IsArmed-lose : (c : Host) (f : ℕ) (s : Depacketizer) → IsBlind s → IsArmed c (lose_frame f s)
unfolding lose_frame
IsArmed-lose c f s h =
    let s1 = record s { decoding_frame = false; next_frame_number = add_u32 f 1 } in
    let b : IsBlind s1 = ground arith in
    let s' = drop_frame_state s1 in
    let v = IsArmed-drop c s1 b in
    holds_if (IsArmed c) s'.waiting_for_idr_frame (act s' request_idr_frame)
      (act s' (detected_frame_loss s'.start_frame_number f))
      (λ e. IsArmed-act c s' request_idr_frame (ground arith) v)
      (λ e. IsArmed-act c s' (detected_frame_loss s'.start_frame_number f) (ground arith) v)

pub IsArmed-notify :
    (c : Host) (f : ℕ) (s : Depacketizer) → IsBlind s → IsArmed c (notify_frame_lost f s)
unfolding notify_frame_lost
IsArmed-notify c f s h =
    let s' = drop_frame_state s in
    let v = IsArmed-drop c s h in
    let s2 = record s' { next_frame_number = add_u32 f 1 } in
    let w : IsArmed c s2 = record { first = v.first; armed = v.armed } in
    holds_if (IsArmed c) s'.waiting_for_idr_frame s'
      (act s2 (detected_frame_loss s'.start_frame_number f)) (λ e. v)
      (λ e. IsArmed-act c s2 (detected_frame_loss s'.start_frame_number f) (ground arith) w)

IsArmed-append :
    (c : Host) (first last : Bool) (f n : ℕ) (b : BufferDesc) (s : Depacketizer)
    → IsDecoding c s
    → IsArmed c (append_payload c first last f n b s)
unfolding append_payload IsAppended
IsArmed-append c first last f n b s h =
    let cut : BufferDesc = record b { size = s.last_packet_payload_length - n } in
    let p = IsDecoding-parsed c first b s h in
    let q = IsDecoding-fragment c b s h in
    let r = IsDecoding-fragment c cut s h in
    holds_if (IsArmed c) (is_parsed c)
      (if last then finish_frame c f (append_parsed c first b s) else append_parsed c first b s)
      (if last
        then (if frame_cut s.last_packet_payload_length n b.size
            then finish_frame c f (queue_fragment c cut s)
            else lose_frame f s)
        else queue_fragment c b s)
      (λ e.
        holds_if (IsArmed c) last (finish_frame c f (append_parsed c first b s))
          (append_parsed c first b s)
          (λ z. IsArmed-finish c f (append_parsed c first b s) p.1 p.0.0) (λ z. p.0.0))
      (λ e.
        holds_if (IsArmed c) last
          (if frame_cut s.last_packet_payload_length n b.size
            then finish_frame c f (queue_fragment c cut s)
            else lose_frame f s)
          (queue_fragment c b s)
          (λ z.
            holds_if (IsArmed c) (frame_cut s.last_packet_payload_length n b.size)
              (finish_frame c f (queue_fragment c cut s)) (lose_frame f s)
              (λ y. IsArmed-finish c f (queue_fragment c cut s) r.1 r.0.0)
              (λ y. IsArmed-lose c f s (IsArmed-IsBlind c s h.0)))
          (λ z. q.0.0))

-- A frame's first packet comes between frames, and only there: the assertion of
-- `processRtpPayload`.
abbrev pub IsExpected : NvVideoPacket → Depacketizer → Type 0
IsExpected p s = is_first_packet p.flags (current_block p) ≡ not s.decoding_frame

pub IsArmed-take_in :
    (c : Host) (p : NvVideoPacket) (len receive pts : ℕ) (s : Depacketizer)
    → IsExpected p s
    → IsArmed c s
    → IsArmed c (take_in c p len receive pts s)
unfolding take_in
IsArmed-take_in c p len receive pts s x h =
    let first = is_first_packet p.flags (current_block p) in
    let last = is_last_packet p in
    let f = p.frame_index in
    let b = payload_of p len in
    let s1 = if first then begin_frame f receive pts s else s in
    let s2 = record s1 { last_packet_in_stream = index_of p } in
    let v : IsDecoding c s1 =
      holds_if (IsDecoding c) first (begin_frame f receive pts s) s
        (λ e. IsDecoding-begin c f receive pts s (ground (arith, e, x)) h)
        (λ e. (h, ground (arith, e, x))) in
    let a = v.0 in
    let v2 : IsDecoding c s2 = (record { first = a.first; armed = a.armed }, v.1) in
    let y = parse_header c f b s2 in
    holds_if (IsArmed c) (first && ltb 0 b.size) (append_payload c first last f y.0 y.1 y.2)
      (append_payload c first last f 0 b s2)
      (λ e. IsArmed-append c first last f y.0 y.1 y.2 (IsDecoding-header c f b s2 v2))
      (λ e. IsArmed-append c first last f 0 b s2 v2)
