-- ===== src/Depacketizer/Packet.antt =====
-- One packet keeps the depacketizer's invariant: its header, its data, and the end of its frame.
use tesla_moonlight_ubuntu.Base.{
  ℕ, ◌-◌, refl, Bool, true, false, ◌||◌, ◌&&◌, arith, ltb, leb, holds_if, if◌then◌else◌,
}
use tesla_moonlight_ubuntu.Seq.{is_before32}
use tesla_moonlight_ubuntu.VideoQueue.Types.{NvVideoPacket, current_block}
use tesla_moonlight_ubuntu.Depacketizer.Types.{
  Host, request_idr_frame, detected_frame_loss, Depacketizer, add_u32, sub_u32,
}
use tesla_moonlight_ubuntu.Depacketizer.Drop.{drop_frame_state, lose_frame}
use tesla_moonlight_ubuntu.Depacketizer.Nal.{
  BufferDesc, at_start_sequence, is_idr_frame_start, is_picture_parameter_set_nal,
  skip_to_next_nal_or_end, skip_to_next_nal, advance, is_access_unit_delimiter, is_sei_nal,
  skip_while, byte_at,
}
use tesla_moonlight_ubuntu.Depacketizer.Nal.Loops.{skip_while-IsWithin}
use tesla_moonlight_ubuntu.Depacketizer.Nal.Window.{
  IsWithin, IsWithin-refl, IsWithin-trans, skip-IsWithin,
}
use tesla_moonlight_ubuntu.Depacketizer.Fragment.{queue_fragment, process_payload_slow}
use tesla_moonlight_ubuntu.Depacketizer.Header.{
  is_parsed, end_ref_inval_wait, trust_idr_header, read_frame_type, old_host, read_type,
  read_latency, read_payload_length, skip_header, skip_delimiters, parse_header, frame_header_size,
}
use tesla_moonlight_ubuntu.Depacketizer.Process.{
  note_missing, note_times, begin_frame, append_parsed, report_wait, complete_frame, finish_frame,
  append_payload, payload_of, take_in, process_rtp_payload, frame_cut, index_of, is_first_packet,
  is_last_packet, is_corrupt,
}
use tesla_moonlight_ubuntu.Depacketizer.Valid.{IsValid, IsValid-act, IsValid-drop, IsValid-lose}
use tesla_moonlight_ubuntu.Depacketizer.Keep.{
  IsInside, IsInside-within, IsValid-fragment, IsValid-slow, IsValid-reassemble,
}

IsValid-begin :
    (f receive pts : ℕ) (s : Depacketizer) → IsValid s → IsValid (begin_frame f receive pts s)
unfolding begin_frame note_missing note_times
IsValid-begin f receive pts s h =
    let s1 = record s { next_frame_number = f; waiting_for_next_successful_frame = true } in
    let d = IsValid-drop s1 (ground arith) in
    let m : IsValid (note_missing f s) =
      holds_if IsValid (is_before32 s.next_frame_number f) (drop_frame_state s1) s (λ e. d)
        (λ e. h) in
    ground arith

IsValid-type :
    (c : Host) (f : ℕ) (b : BufferDesc) (s : Depacketizer) → IsValid s → IsValid (read_type c f b s)
unfolding read_type read_frame_type old_host end_ref_inval_wait trust_idr_header
IsValid-type c f b s h =
    let w = IsValid-act s (detected_frame_loss s.start_frame_number (sub_u32 f 1)) tt h in
    ground arith

IsValid-latency :
    (c : Host) (b : BufferDesc) (s : Depacketizer) → IsValid s → IsValid (read_latency c b s)
unfolding read_latency
IsValid-latency c b s h = ground arith

IsValid-payload_length :
    (c : Host) (b : BufferDesc) (s : Depacketizer) → IsValid s → IsValid (read_payload_length c b s)
unfolding read_payload_length
IsValid-payload_length c b s h = ground arith

skip_header-IsWithin : (n : ℕ) (b : BufferDesc) → IsWithin b (skip_header n b)
skip_header-IsWithin n b =
    holds_if (IsWithin b) (leb n b.size) (advance n b) b
      (λ e. record { same_bytes = refl; same_end = ground arith; forward = omega arith })
      (λ e. IsWithin-refl b)

skip_delimiters-IsWithin : (c : Host) (b : BufferDesc) → IsWithin b (skip_delimiters c b)
unfolding skip_delimiters skip_to_next_nal
skip_delimiters-IsWithin c b =
    let b1 = if at_start_sequence b then b else skip_to_next_nal_or_end b in
    let b2 = if is_access_unit_delimiter c b1 then skip_to_next_nal_or_end b1 else b1 in
    IsWithin-trans b b1 (skip_while b2.size (is_sei_nal c) b2)
      (holds_if (IsWithin b) (at_start_sequence b) b (skip_to_next_nal_or_end b)
        (λ z. IsWithin-refl b) (λ z. skip-IsWithin b))
      (IsWithin-trans b1 b2 (skip_while b2.size (is_sei_nal c) b2)
        (holds_if (IsWithin b1) (is_access_unit_delimiter c b1) (skip_to_next_nal_or_end b1) b1
          (λ z. skip-IsWithin b1) (λ z. IsWithin-refl b1))
        (skip_while-IsWithin b2.size (is_sei_nal c) b2))

-- The header leaves the cursor within the packet, and keeps the invariant.
pub parse_header-IsValid :
    (c : Host) (f : ℕ) (b : BufferDesc) (s : Depacketizer)
    → IsValid s
    → IsWithin b (parse_header c f b s).1 × IsValid (parse_header c f b s).2
unfolding parse_header
parse_header-IsValid c f b s h =
    let n = frame_header_size c (byte_at b 0) in
    let rest = skip_header n b in
    (
      IsWithin-trans b rest (if is_parsed c then skip_delimiters c rest else rest)
          (skip_header-IsWithin n b)
          (holds_if (IsWithin rest) (is_parsed c) (skip_delimiters c rest) rest
            (λ e. skip_delimiters-IsWithin c rest) (λ e. IsWithin-refl rest)),
      IsValid-payload_length c b (read_latency c b (read_type c f b s))
          (IsValid-latency c b (read_type c f b s) (IsValid-type c f b s h)),
    )

IsValid-parsed :
    (c : Host) (first : Bool) (b : BufferDesc) (s : Depacketizer)
    → IsInside b
    → IsValid s
    → IsValid (append_parsed c first b s)
unfolding append_parsed skip_to_next_nal
IsValid-parsed c first b s i h =
    let skip = first && is_picture_parameter_set_nal c b in
    let b' = if skip then skip_to_next_nal_or_end b else b in
    let j : IsInside b' =
      holds_if IsInside skip (skip_to_next_nal_or_end b) b
        (λ e. IsInside-within b (skip_to_next_nal_or_end b) (skip-IsWithin b) i) (λ e. i) in
    holds_if IsValid (first && is_idr_frame_start c b) (process_payload_slow c b.size b s).1
      (queue_fragment c b' s) (λ e. IsValid-slow c b.size b s i h)
      (λ e. IsValid-fragment c b' s j h)

IsValid-report : (f : ℕ) (s : Depacketizer) → IsValid s → IsValid (report_wait f s)
unfolding report_wait
IsValid-report f s h =
    let a = IsValid-act s request_idr_frame tt h in
    let b = IsValid-act s (detected_frame_loss s.start_frame_number f) tt h in ground arith

IsValid-whole : (c : Host) (f : ℕ) (s : Depacketizer) → IsValid s → IsValid (complete_frame c f s)
unfolding complete_frame
IsValid-whole c f s h =
    let d = IsValid-drop s h in
    let r = IsValid-reassemble c f s h in
    let s1 = record s { drop_state_pending = false } in
    let q = IsValid-reassemble c f s1 (ground arith) in ground arith

IsValid-finish : (c : Host) (f : ℕ) (s : Depacketizer) → IsValid s → IsValid (finish_frame c f s)
unfolding finish_frame
IsValid-finish c f s h =
    let s' = record s { decoding_frame = false; next_frame_number = add_u32 f 1 } in
    let h' : IsValid s' = ground arith in
    let r = IsValid-report f s' h' in
    let s1 = record (report_wait f s') { waiting_for_next_successful_frame = false } in
    holds_if IsValid (s'.waiting_for_idr_frame || s'.waiting_for_ref_inval_frame)
      (drop_frame_state s1) (complete_frame c f s') (λ e. IsValid-drop s1 (ground arith))
      (λ e. IsValid-whole c f s' h')

IsValid-append :
    (c : Host) (first last : Bool) (f n : ℕ) (b : BufferDesc) (s : Depacketizer)
    → IsInside b
    → IsValid s
    → IsValid (append_payload c first last f n b s)
unfolding append_payload
IsValid-append c first last f n b s i h =
    let k = s.last_packet_payload_length - n in
    let cut : BufferDesc = record b { size = k } in
    let p = IsValid-parsed c first b s i h in
    let q = IsValid-fragment c b s i h in
    holds_if IsValid (is_parsed c)
      (if last then finish_frame c f (append_parsed c first b s) else append_parsed c first b s)
      (if last
        then (if frame_cut s.last_packet_payload_length n b.size
            then finish_frame c f (queue_fragment c cut s)
            else lose_frame f s)
        else queue_fragment c b s)
      (λ e.
        holds_if IsValid last (finish_frame c f (append_parsed c first b s))
          (append_parsed c first b s) (λ z. IsValid-finish c f (append_parsed c first b s) p)
          (λ z. p))
      (λ e.
        holds_if IsValid last
          (if frame_cut s.last_packet_payload_length n b.size
            then finish_frame c f (queue_fragment c cut s)
            else lose_frame f s)
          (queue_fragment c b s)
          (λ z.
            holds_if IsValid (frame_cut s.last_packet_payload_length n b.size)
              (finish_frame c f (queue_fragment c cut s)) (lose_frame f s)
              (λ y.
                IsValid-finish c f (queue_fragment c cut s)
                  (IsValid-fragment c cut s (ground arith) h))
              (λ y. IsValid-lose f s h))
          (λ z. q))

-- The packet holds the bytes that its length counts.
abbrev pub IsPacket : NvVideoPacket → ℕ → Type 0
IsPacket p len = IsInside (payload_of p len)

pub IsValid-take_in :
    (c : Host) (p : NvVideoPacket) (len receive pts : ℕ) (s : Depacketizer)
    → IsPacket p len
    → IsValid s
    → IsValid (take_in c p len receive pts s)
unfolding take_in
IsValid-take_in c p len receive pts s i h =
    let first = is_first_packet p.flags (current_block p) in
    let last = is_last_packet p in
    let f = p.frame_index in
    let b = payload_of p len in
    let s1 = if first then begin_frame f receive pts s else s in
    let s2 = record s1 { last_packet_in_stream = index_of p } in
    let v : IsValid s1 =
      holds_if IsValid first (begin_frame f receive pts s) s (λ e. IsValid-begin f receive pts s h)
        (λ e. h) in
    let v2 : IsValid s2 = ground arith in
    let x = parse_header c f b s2 in
    let w = parse_header-IsValid c f b s2 v2 in
    holds_if IsValid (first && ltb 0 b.size) (append_payload c first last f x.0 x.1 x.2)
      (append_payload c first last f 0 b s2)
      (λ e. IsValid-append c first last f x.0 x.1 x.2 (IsInside-within b x.1 w.0 i) w.1)
      (λ e. IsValid-append c first last f 0 b s2 i v2)

pub IsValid-process :
    (c : Host) (p : NvVideoPacket) (len receive pts : ℕ) (s : Depacketizer)
    → IsPacket p len
    → IsValid s
    → IsValid (process_rtp_payload c p len receive pts s)
unfolding process_rtp_payload
IsValid-process c p len receive pts s i h =
    holds_if IsValid (is_before32 p.frame_index s.next_frame_number) s
      (if is_corrupt p s then lose_frame p.frame_index s else take_in c p len receive pts s)
      (λ e. h)
      (λ e.
        holds_if IsValid (is_corrupt p s) (lose_frame p.frame_index s)
          (take_in c p len receive pts s) (λ z. IsValid-lose p.frame_index s h)
          (λ z. IsValid-take_in c p len receive pts s i h))
