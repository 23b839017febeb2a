-- ===== src/Depacketizer/Reach.antt =====
-- The states that the depacketizer comes through: packets and lost frames from the RTP queue, in
-- any order with what the decoder's side does. Each call is one step. The code takes no lock, so
-- this leaves out a call of the decoder's thread that falls in the middle of a packet's.
use tesla_moonlight_ubuntu.Base.{
  ℕ, ◌≡◌, refl, true, false, List, [], ◌∷◌, ◌++◌, arith, holds_if, if◌then◌else◌,
}
use mathlib.Core.Path.{subst}
use tesla_moonlight_ubuntu.Seq.{is_before32}
use tesla_moonlight_ubuntu.VideoQueue.Types.{Entry, data_offset}
use tesla_moonlight_ubuntu.Depacketizer.Types.{
  Host, FrameType, pframe, idr, DrStatus, DecodeUnit, Action, request_idr_frame,
  detected_frame_loss, received_complete_frame, key_frame_received, handed_over, Depacketizer,
  sub_u32, initialize_video_depacketizer,
}
use tesla_moonlight_ubuntu.Depacketizer.Drop.{
  notify_frame_lost, lose_frame, request_decoder_refresh, complete_video_frame,
  poll_next_video_frame, stop_video_depacketizer,
}
use tesla_moonlight_ubuntu.Depacketizer.Process.{
  process_rtp_payload, queue_rtp_packet, is_corrupt, take_in,
}
use tesla_moonlight_ubuntu.Depacketizer.Valid.{
  IsValid, IsValid-notify, IsValid-refresh, IsValid-complete,
}
use tesla_moonlight_ubuntu.Depacketizer.Packet.{IsPacket, IsValid-process}
use tesla_moonlight_ubuntu.Depacketizer.First.{is_idr, handed, idr_first, IsArmed, IsArmed-IsBlind}
use tesla_moonlight_ubuntu.Depacketizer.First.Deliver.{IsArmed-refresh, IsArmed-complete}
use tesla_moonlight_ubuntu.Depacketizer.First.Arrive.{
  IsExpected, IsArmed-lose, IsArmed-notify, IsArmed-take_in,
}

-- The length of the data from the `NV_VIDEO_PACKET` on
abbrev pub payload_length : Entry → ℕ
payload_length e = sub_u32 e.packet_length (data_offset e.packet)

-- What the RTP queue promises of a packet: its bytes are there, and if the packet is neither old
-- nor out of order, it begins a frame exactly between frames.
abbrev pub IsSound : Entry → Depacketizer → Type 0
IsSound e s =
    IsPacket e.packet.nv (payload_length e)
    × (is_before32 e.packet.nv.frame_index s.next_frame_number ≡ false
        → is_corrupt e.packet.nv s ≡ false
        → IsExpected e.packet.nv s)

-- The calls that may come next, each of them whole. Only a unit that was handed over is completed.
pub data Reaches (c : Host) (s0 : Depacketizer) : Depacketizer → Type 0 where
  start : Reaches c s0 s0
  by_packet :
      (s : Depacketizer) (e : Entry)
      → IsSound e s
      → Reaches c s0 s
      → Reaches c s0 (queue_rtp_packet c e s)
  by_loss : (s : Depacketizer) (f : ℕ) → Reaches c s0 s → Reaches c s0 (notify_frame_lost f s)
  by_refresh : (s : Depacketizer) → Reaches c s0 s → Reaches c s0 (request_decoder_refresh s)
  by_completion :
      (s : Depacketizer) (u : DecodeUnit) (d : DrStatus)
      → handed s.actions ≡ true
      → Reaches c s0 s
      → Reaches c s0 (complete_video_frame u d s)
  by_poll : (s : Depacketizer) → Reaches c s0 s → Reaches c s0 (poll_next_video_frame s).1
  by_stop : (s : Depacketizer) → Reaches c s0 s → Reaches c s0 (stop_video_depacketizer s)

IsValid-poll : (s : Depacketizer) → IsValid s → IsValid (poll_next_video_frame s).1
unfolding poll_next_video_frame
IsValid-poll s h = ground arith

-- From a valid state sound calls reach only valid ones: the length that is kept of the chain is that of
-- its bytes, fewer than 120 drops are counted, a frame free of lost references is awaited only if
-- that is allowed and an IDR frame has been processed, at most 15 units wait, and every unit that
-- was handed over or waits is whole and, as a P-frame, begins with picture data.
pub reached-IsValid : (c : Host) (s0 s : Depacketizer) → IsValid s0 → Reaches c s0 s → IsValid s
unfolding queue_rtp_packet stop_video_depacketizer
reached-IsValid c s0 s h start = h
reached-IsValid c s0 _ h (by_packet s e k r) =
    IsValid-process c e.packet.nv (payload_length e) e.receive_time_ms e.presentation_time_ms s k.0
      (reached-IsValid c s0 s h r)
reached-IsValid c s0 _ h (by_loss s f r) = IsValid-notify f s (reached-IsValid c s0 s h r)
reached-IsValid c s0 _ h (by_refresh s r) = IsValid-refresh s (reached-IsValid c s0 s h r)
reached-IsValid c s0 _ h (by_completion s u d k r) =
    IsValid-complete u d s (reached-IsValid c s0 s h r)
reached-IsValid c s0 _ h (by_poll s r) = IsValid-poll s (reached-IsValid c s0 s h r)
reached-IsValid c s0 _ h (by_stop s r) = let v = reached-IsValid c s0 s h r in ground arith

IsArmed-process :
    (c : Host) (e : Entry) (s : Depacketizer)
    → IsSound e s
    → IsArmed c s
    → IsArmed c (queue_rtp_packet c e s)
unfolding queue_rtp_packet process_rtp_payload
IsArmed-process c e s k h =
    let p = e.packet.nv in
    let done = take_in c p (payload_length e) e.receive_time_ms e.presentation_time_ms s in
    holds_if (IsArmed c) (is_before32 p.frame_index s.next_frame_number) s
      (if is_corrupt p s then lose_frame p.frame_index s else done) (λ z. h)
      (λ z.
        holds_if (IsArmed c) (is_corrupt p s) (lose_frame p.frame_index s) done
          (λ y. IsArmed-lose c p.frame_index s (IsArmed-IsBlind c s h))
          (λ y.
            IsArmed-take_in c p (payload_length e) e.receive_time_ms e.presentation_time_ms s
              (k.1 z y) h))

IsArmed-poll : (c : Host) (s : Depacketizer) → IsArmed c s → IsArmed c (poll_next_video_frame s).1
unfolding poll_next_video_frame
IsArmed-poll c s h = ground arith

reached-IsArmed : (c : Host) (s0 s : Depacketizer) → IsArmed c s0 → Reaches c s0 s → IsArmed c s
unfolding stop_video_depacketizer
reached-IsArmed c s0 s h start = h
reached-IsArmed c s0 _ h (by_packet s e k r) = IsArmed-process c e s k (reached-IsArmed c s0 s h r)
reached-IsArmed c s0 _ h (by_loss s f r) =
    IsArmed-notify c f s (IsArmed-IsBlind c s (reached-IsArmed c s0 s h r))
reached-IsArmed c s0 _ h (by_refresh s r) =
    IsArmed-refresh c s (IsArmed-IsBlind c s (reached-IsArmed c s0 s h r))
reached-IsArmed c s0 _ h (by_completion s u d k r) =
    IsArmed-complete c u d s (reached-IsArmed c s0 s h r) k
reached-IsArmed c s0 _ h (by_poll s r) = IsArmed-poll c s (reached-IsArmed c s0 s h r)
reached-IsArmed c s0 _ h (by_stop s r) = let v = reached-IsArmed c s0 s h r in ground arith

idr_first-split :
    (u : DecodeUnit) (before after : List Action)
    → handed before ≡ false
    → idr_first (before ++ (handed_over u ∷ after)) ≡ true
    → u.frame_type ≡ idr
idr_first-split u [] after n h = typed u.frame_type h
  where
    typed : (t : FrameType) → is_idr t ≡ true → t ≡ idr
    typed idr e = refl
    typed pframe e = absurd cc
idr_first-split u (handed_over v ∷ before) after n h = absurd cc
idr_first-split u (request_idr_frame ∷ before) after n h = idr_first-split u before after n h
idr_first-split u (detected_frame_loss x y ∷ before) after n h = idr_first-split u before after n h
idr_first-split u (received_complete_frame f ∷ before) after n h =
    idr_first-split u before after n h
idr_first-split u (key_frame_received ∷ before) after n h = idr_first-split u before after n h

-- After a start, whatever state an earlier connection left, the first decode unit that is handed
-- over, to the queue or to a decoder that takes units directly, is an IDR frame. The calls are
-- sound: a packet that is neither old nor corrupt begins a frame exactly between frames, and only
-- a unit that was handed over is completed.
pub first_unit_is_idr :
    (c : Host) (old s : Depacketizer) (u : DecodeUnit) (before after : List Action)
    → old.actions ≡ []
    → Reaches c (initialize_video_depacketizer c old) s
    → s.actions ≡ before ++ (handed_over u ∷ after)
    → handed before ≡ false
    → u.frame_type ≡ idr
unfolding initialize_video_depacketizer
first_unit_is_idr c old s u before after none r split n =
    let s0 = initialize_video_depacketizer c old in
    let a : IsArmed c s0 = record { first = rw none refl; armed = ground (arith, none) } in
    let v = reached-IsArmed c s0 s a r in
    let f = v.first in idr_first-split u before after n (subst (λ x. idr_first x ≡ true) split f)
