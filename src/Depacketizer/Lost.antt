-- ===== src/Depacketizer/Lost.antt =====
-- A frame in which a packet is missing, out of order or from another frame.
use tesla_moonlight_ubuntu.Base.{
  ℕ, ◌+◌, ◌%◌, ◌^◌, ◌<◌, ◌≡◌, refl, true, false, ◌||◌, List, [], ◌∷◌, ◌++◌, arith, ◌==◌, holds_if,
  Bool-cases, ◌⊎◌, inl, inr, if◌then◌else◌,
}
use tesla_moonlight_ubuntu.Seq.{is_before32}
use tesla_moonlight_ubuntu.VideoQueue.Types.{NvVideoPacket}
use tesla_moonlight_ubuntu.Depacketizer.Types.{
  Host, Action, request_idr_frame, detected_frame_loss, Depacketizer, act, add_u32,
  cleanup_frame_state,
}
use tesla_moonlight_ubuntu.Depacketizer.Drop.{
  await_recovery, count_drop, drop_frame_state, lose_frame,
}
use tesla_moonlight_ubuntu.Depacketizer.Process.{process_rtp_payload, is_corrupt}

-- The report of a lost frame that asks the host to recover: for an IDR frame if one is awaited,
-- else for frames without the lost ones
abbrev pub recovery : ℕ → Depacketizer → Action
recovery f s =
    if s.waiting_for_idr_frame
    then request_idr_frame
    else detected_frame_loss s.start_frame_number f

-- What holds once the frame `f` has been given up in the state `s`
pub record IsLost (f : ℕ) (s s' : Depacketizer) : Type 0 where
  pub no_chain : s'.nal_chain ≡ []
  pub no_bytes : s'.nal_chain_data_length ≡ 0
  pub between_frames : s'.decoding_frame ≡ false
  pub moved_on : s'.next_frame_number ≡ add_u32 f 1
  pub waits : (s'.waiting_for_idr_frame || s'.waiting_for_ref_inval_frame) ≡ true
  pub queue_kept : s'.decode_unit_queue ≡ s.decode_unit_queue
  pub reported :
      (s'.actions ≡ s.actions ++ (recovery f s' ∷ []))
      ⊎ (s'.actions ≡ (s.actions ++ (request_idr_frame ∷ [])) ++ (recovery f s' ∷ []))

-- A drop adds at most the request at the limit.
drop-actions :
    (s : Depacketizer)
    → ((drop_frame_state s).actions ≡ s.actions)
      ⊎ ((drop_frame_state s).actions ≡ s.actions ++ (request_idr_frame ∷ []))
unfolding drop_frame_state count_drop await_recovery cleanup_frame_state
drop-actions s =
    let n = add_u32 (await_recovery s).consecutive_frame_drops 1 in
    elim (Bool-cases (n == 120)) [
      | inl e ↦ inr (ground (arith, e))
      | inr e ↦ inl (ground (arith, e))
    ]

drop-IsLost :
    (f : ℕ) (s : Depacketizer)
    → ((drop_frame_state s).nal_chain ≡ [])
      × ((drop_frame_state s).nal_chain_data_length ≡ 0)
      × ((drop_frame_state s).decoding_frame ≡ s.decoding_frame)
      × ((drop_frame_state s).next_frame_number ≡ s.next_frame_number)
      × (((drop_frame_state s).waiting_for_idr_frame
            || (drop_frame_state s).waiting_for_ref_inval_frame)
          ≡ true)
      × ((drop_frame_state s).decode_unit_queue ≡ s.decode_unit_queue)
unfolding drop_frame_state count_drop await_recovery cleanup_frame_state
drop-IsLost f s = ground arith

lose_frame-IsLost : (f : ℕ) (s : Depacketizer) → IsLost f s (lose_frame f s)
unfolding lose_frame
lose_frame-IsLost f s =
    let s1 = record s { decoding_frame = false; next_frame_number = add_u32 f 1 } in
    let d = drop-IsLost f s1 in
    given s1 (drop_frame_state s1) d.0 d.1 d.2 d.3 d.4 d.5 (drop-actions s1)
  where
    report :
        {xs : List Action}
        → (xs ≡ s.actions) ⊎ (xs ≡ s.actions ++ (request_idr_frame ∷ []))
        → (a b : Action) → a ≡ b
        → (xs ++ (a ∷ []) ≡ s.actions ++ (b ∷ []))
          ⊎ (xs ++ (a ∷ []) ≡ (s.actions ++ (request_idr_frame ∷ [])) ++ (b ∷ []))
    report (inl e) a b k = inl (rw (e, k) refl)
    report (inr e) a b k = inr (rw (e, k) refl)

    given :
        (s1 s' : Depacketizer)
        → s'.nal_chain ≡ []
        → s'.nal_chain_data_length ≡ 0
        → s'.decoding_frame ≡ false
        → s'.next_frame_number ≡ add_u32 f 1
        → (s'.waiting_for_idr_frame || s'.waiting_for_ref_inval_frame) ≡ true
        → s'.decode_unit_queue ≡ s.decode_unit_queue
        → (s'.actions ≡ s.actions) ⊎ (s'.actions ≡ s.actions ++ (request_idr_frame ∷ []))
        → IsLost f s (
            if s'.waiting_for_idr_frame
            then act s' request_idr_frame
            else act s' (detected_frame_loss s'.start_frame_number f))
    given s1 s' a b c d e g told =
        holds_if (IsLost f s) s'.waiting_for_idr_frame (act s' request_idr_frame)
          (act s' (detected_frame_loss s'.start_frame_number f))
          (λ z. record {
            no_chain = a;
            no_bytes = b;
            between_frames = c;
            moved_on = d;
            waits = e;
            queue_kept = g;
            reported = report told _ _ (rw z refl);
          })
          (λ z. record {
            no_chain = a;
            no_bytes = b;
            between_frames = c;
            moved_on = d;
            waits = e;
            queue_kept = g;
            reported = report told _ _ (rw z refl);
          })

next_is_later : (f n : ℕ) → n ≡ (f + 1) % 2 ^ 32 → f < 2 ^ 32 → is_before32 f n ≡ true
unfolding is_before32
next_is_later f n e h = ground arith

-- A packet of a frame, of a 32-bit number, that is not old, whose place in the stream shows that the frame is corrupt,
-- ends that frame: what was collected of it is gone, nothing is handed over, the host is asked to
-- recover, and every further packet of the frame changes nothing.
pub corrupt_frame-IsLost :
    (c : Host) (p : NvVideoPacket) (len receive pts : ℕ) (s : Depacketizer)
    → p.frame_index < 2 ^ 32
    → is_before32 p.frame_index s.next_frame_number ≡ false
    → is_corrupt p s ≡ true
    → IsLost p.frame_index s (process_rtp_payload c p len receive pts s)
      × ((q : NvVideoPacket) (len' receive' pts' : ℕ)
          → q.frame_index ≡ p.frame_index
          → process_rtp_payload c q len' receive' pts' (process_rtp_payload c p len receive pts s)
            ≡ process_rtp_payload c p len receive pts s)
unfolding process_rtp_payload
corrupt_frame-IsLost c p len receive pts s word new corrupt =
    let e : process_rtp_payload c p len receive pts s ≡ lose_frame p.frame_index s =
      rw (new, corrupt, process_rtp_payload) refl in
    let l = lose_frame-IsLost p.frame_index s in
    let m = l.moved_on in
    rw e (
      l,
      λ q len' receive' pts' same.
          let old : is_before32 q.frame_index (lose_frame p.frame_index s).next_frame_number
              ≡ true =
            next_is_later q.frame_index (lose_frame p.frame_index s).next_frame_number
              (omega (arith, m)) (omega arith) in
          rw (old, process_rtp_payload) refl,
    )
