-- ===== src/Depacketizer/Ending.antt =====
-- The last packet of a frame, and the decode unit it completes.
use tesla_moonlight_ubuntu.Base.{
  ℕ, ◌≡◌, ◌≢◌, refl, ◌∙◌, ap, true, false, ◌||◌, List, [], ◌∷◌, ◌++◌, arith, ◌==◌, length, if_true,
  if_false, elim_false,
}
use tesla_moonlight_ubuntu.VideoQueue.Types.{NvVideoPacket, Entry, current_block}
use tesla_moonlight_ubuntu.Depacketizer.Types.{
  Host, Lentry, DecodeUnit, Depacketizer, act, add_u32, handed_over,
}
use tesla_moonlight_ubuntu.Depacketizer.Nal.{BufferDesc}
use tesla_moonlight_ubuntu.Depacketizer.Fragment.{queue_fragment}
use tesla_moonlight_ubuntu.Depacketizer.Reassemble.{
  unit_of, take_chain, submit_unit, note_complete, offer_unit, reassemble_frame,
}
use tesla_moonlight_ubuntu.Depacketizer.Header.{is_parsed}
use tesla_moonlight_ubuntu.Depacketizer.Process.{
  is_first_packet, is_last_packet, index_of, append_parsed, complete_frame, finish_frame,
  append_payload, payload_of, take_in, process_rtp_payload, queue_rtp_packet,
}
use tesla_moonlight_ubuntu.Depacketizer.Reach.{payload_length}
use tesla_moonlight_ubuntu.Depacketizer.Whole.{
  bytes_of, data_of, data_of_all, Continues, IsReceiving, Middles, after, feed, bytes_of-snoc,
  accepted, snoc-cons, feed-IsFed,
}

-- The frame `f` with these bytes is the unit that was queued last, and the next frame is awaited.
pub record IsQueued (f : ℕ) (bytes : List ℕ) (s s' : Depacketizer) : Type 0 where
  pub queued :
      (u : DecodeUnit) × (s'.decode_unit_queue ≡ s.decode_unit_queue ++ (u ∷ []))
      × (bytes_of u.buffer_list ≡ bytes)
      × (u.frame_number ≡ f)
  pub next : s'.next_frame_number ≡ add_u32 f 1
  pub start : s'.start_frame_number ≡ add_u32 f 1
  pub empty : s'.nal_chain ≡ []
  pub no_drops : s'.consecutive_frame_drops ≡ 0

take_chain-keeps :
    (u : DecodeUnit) (s : Depacketizer)
    → ((take_chain u s).queue_shutdown ≡ s.queue_shutdown)
      × ((take_chain u s).decode_unit_queue ≡ s.decode_unit_queue)
      × ((take_chain u s).next_frame_number ≡ s.next_frame_number)
      × ((take_chain u s).nal_chain ≡ [])
take_chain-keeps u s = ground arith

-- A queue with room takes the unit.
offered :
    (f : ℕ) (u : DecodeUnit) (s : Depacketizer)
    → s.queue_shutdown ≡ false
    → (length s.decode_unit_queue == 15) ≡ false
    → offer_unit f u s
      ≡ note_complete f
          (act (record s { decode_unit_queue = s.decode_unit_queue ++ (u ∷ []) }) (handed_over u))
unfolding offer_unit
offered f u s shut full = elim_false _ _ shut ∙ elim_false _ _ full

reassembled :
    (c : Host) (f : ℕ) (s : Depacketizer)
    → c.direct_submit ≡ false
    → s.queue_shutdown ≡ false
    → (length s.decode_unit_queue == 15) ≡ false
    → s.nal_chain ≢ []
    → s.next_frame_number ≡ add_u32 f 1
    → IsQueued f (bytes_of s.nal_chain) s (reassemble_frame c f s)
unfolding reassemble_frame unit_of note_complete
reassembled c f s indirect shut full ne next = over s.nal_chain ne
  where
    hand :
        (e : Lentry)
        → IsQueued f
            (bytes_of s.nal_chain)
            s
            (offer_unit f (unit_of c f e s) (take_chain (unit_of c f e s) s))
    hand e =
        let u = unit_of c f e s in
        let k = take_chain-keeps u s in
        let full' : (length (take_chain u s).decode_unit_queue == 15) ≡ false = rw k.1 full in
        rw (offered f u (take_chain u s) (k.0 ∙ shut) full') (record {
          queued = (u, ap (λ x. x ++ (u ∷ [])) k.1, refl, refl);
          next = k.2 ∙ next;
          start = k.2 ∙ next;
          empty = k.3;
          no_drops = refl;
        })

    over :
        (chain : List Lentry)
        → chain ≢ []
        → IsQueued f (bytes_of s.nal_chain) s (elim chain [
          | [] ↦ s
          | e ∷ es ↦ elim c.direct_submit [
            | true ↦ submit_unit c f (unit_of c f e s) (take_chain (unit_of c f e s) s)
            | false ↦ offer_unit f (unit_of c f e s) (take_chain (unit_of c f e s) s)
          ]
        ])
    over [] z = absurd (z refl)
    over (e ∷ es) z = rw indirect (hand e)

-- The end of a frame for which nothing is awaited
finished :
    (c : Host) (f : ℕ) (s : Depacketizer)
    → s.waiting_for_idr_frame ≡ false
    → s.waiting_for_ref_inval_frame ≡ false
    → s.drop_state_pending ≡ false
    → finish_frame c f s
      ≡ reassemble_frame c f (record s { decoding_frame = false; next_frame_number = add_u32 f 1 })
unfolding finish_frame complete_frame
finished c f s w r d =
    let waits : (s.waiting_for_idr_frame || s.waiting_for_ref_inval_frame) ≡ false = ground arith in
    if_false _ _ waits ∙ elim_false _ _ d

last_appended :
    (c : Host) (f : ℕ) (b : BufferDesc) (s : Depacketizer)
    → is_parsed c ≡ true
    → append_payload c false true f 0 b s ≡ finish_frame c f (queue_fragment c b s)
unfolding append_payload append_parsed
last_appended c f b s parsed = if_true _ _ parsed

last_taken :
    (c : Host) (p : NvVideoPacket) (len receive pts : ℕ) (s : Depacketizer)
    → is_first_packet p.flags (current_block p) ≡ false
    → is_last_packet p ≡ true
    → take_in c p len receive pts s
      ≡ append_payload c false true p.frame_index 0
          (payload_of p len)
          (record s { last_packet_in_stream = index_of p })
unfolding take_in
last_taken c p len receive pts s first last = rw (first, last, take_in) refl

-- The last packet of the frame
ended :
    (c : Host) (f n : ℕ) (e : Entry) (s : Depacketizer)
    → is_parsed c ≡ true
    → Continues f n e.packet.nv
    → IsReceiving f n s
    → is_last_packet e.packet.nv ≡ true
    → queue_rtp_packet c e s
      ≡ reassemble_frame c f
          (record (queue_fragment c
            (payload_of e.packet.nv (payload_length e))
            (record s { last_packet_in_stream = index_of e.packet.nv })) {
              decoding_frame = false;
              next_frame_number = add_u32 f 1;
            })
unfolding queue_rtp_packet process_rtp_payload queue_fragment
ended c f n e s parsed k h last =
    let p = e.packet.nv in
    let a = accepted f n p s k h in
    let b = payload_of p (payload_length e) in
    let s1 = record s { last_packet_in_stream = index_of p } in
    let whole : finish_frame c p.frame_index (queue_fragment c b s1)
        ≡ finish_frame c f (queue_fragment c b s1) =
      ap (λ x. finish_frame c x (queue_fragment c b s1)) k.frame in
    if_false _ _ a.0
    ∙ if_false _ _ a.1
    ∙ last_taken c p (payload_length e) e.receive_time_ms e.presentation_time_ms s a.2 last
    ∙ last_appended c p.frame_index b s1 parsed
    ∙ whole
    ∙ finished c f (queue_fragment c b s1) h.no_idr_wait h.no_ref_inval_wait h.no_drop

-- In an H.264 or HEVC frame that has begun, with nothing awaited, no drop pending, and room in a
-- queue that is open and in use: packets of the middle of the frame and its last packet, in the
-- order of the stream, become one decode unit at the end of the queue, with the frame's number,
-- whose bytes are those collected before and the packets' data, in order. The chain is empty then,
-- the next frame is awaited, the window of reference frame invalidation starts at it, and no drops
-- are counted.
pub frame_is_whole :
    (c : Host) (f n : ℕ) (es : List Entry) (e : Entry) (s : Depacketizer)
    → is_parsed c ≡ true
    → c.direct_submit ≡ false
    → s.queue_shutdown ≡ false
    → (length s.decode_unit_queue == 15) ≡ false
    → IsReceiving f n s
    → Middles f n es
    → Continues f (after n es) e.packet.nv
    → is_last_packet e.packet.nv ≡ true
    → IsQueued f
        ((bytes_of s.nal_chain ++ data_of_all es) ++ data_of e)
        s
        (queue_rtp_packet c e (feed c es s))
unfolding queue_fragment
frame_is_whole c f n es e s parsed indirect shut full h ms k last =
    let m = feed-IsFed c f n es s parsed ms h in
    let s1 = feed c es s in
    let z = ended c f (after n es) e s1 parsed k m.receiving last in
    let s2 : Depacketizer =
      record (queue_fragment c (payload_of e.packet.nv (payload_length e))
        (record s1 { last_packet_in_stream = index_of e.packet.nv })) {
          decoding_frame = false;
          next_frame_number = add_u32 f 1;
        } in
    let full' : (length s1.decode_unit_queue == 15) ≡ false = rw m.queue full in
    let r = reassembled c f s2 indirect (m.shutdown ∙ shut) full' (snoc-cons s1.nal_chain _) refl in
    let b : bytes_of s2.nal_chain ≡ (bytes_of s.nal_chain ++ data_of_all es) ++ data_of e =
      bytes_of-snoc s1.nal_chain _ ∙ ap (λ x. x ++ data_of e) m.collected in
    let q = r.queued in
    rw z (record {
      queued = (q.0, q.1 ∙ ap (λ x. x ++ (q.0 ∷ [])) m.queue, q.2 ∙ b, q.3);
      next = r.next;
      start = r.start;
      empty = r.empty;
      no_drops = r.no_drops;
    })
