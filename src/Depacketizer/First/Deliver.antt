-- ===== src/Depacketizer/First/Deliver.antt =====
-- Handing over the frame that is whole, in an armed state.
use tesla_moonlight_ubuntu.Base.{
  ℕ, ◌≡◌, refl, Bool, true, false, not, ◌||◌, ◌&&◌, List, [], ◌∷◌, ◌++◌, arith, holds_if,
}
use tesla_moonlight_ubuntu.Depacketizer.Types.{
  Host, BufferType, picdata, sps, pps, vps, FrameType, DrStatus, ok, need_idr, cleanup, Lentry,
  DecodeUnit, Action, request_idr_frame, detected_frame_loss, received_complete_frame,
  key_frame_received, handed_over, Depacketizer, act, add_u32,
}
use tesla_moonlight_ubuntu.Depacketizer.Drop.{
  drop_frame_state, request_decoder_refresh, complete_video_frame,
}
use tesla_moonlight_ubuntu.Depacketizer.Reassemble.{
  unit_type, unit_of, take_chain, overflow, note_complete, offer_unit, submit_unit,
  reassemble_frame,
}
use tesla_moonlight_ubuntu.Depacketizer.Process.{report_wait, complete_frame, finish_frame}
use tesla_moonlight_ubuntu.Depacketizer.First.{
  is_idr, handed, fits_first, IsArmed, IsBlind, handed-snoc, idr_first-snoc, IsArmed-act,
  IsArmed-IsBlind, IsArmed-drop,
}

-- An action that fits in keeps a blind state blind.
IsBlind-act :
    (s : Depacketizer) (a : Action)
    → (handed s.actions || fits_first a) ≡ true
    → IsBlind s
    → IsBlind (act s a)
IsBlind-act s a k h =
    let e = handed-snoc s.actions a in let f = idr_first-snoc s.actions a h.first k in ground arith

pub IsArmed-note :
    (c : Host) (f : ℕ) (s : Depacketizer) → IsArmed c s → IsArmed c (note_complete f s)
unfolding note_complete
IsArmed-note c f s h =
    let w = IsArmed-act c s (received_complete_frame f) (ground arith) h in ground arith

pub IsArmed-refresh :
    (c : Host) (s : Depacketizer) → IsBlind s → IsArmed c (request_decoder_refresh s)
unfolding request_decoder_refresh
IsArmed-refresh c s h =
    let s1 = record s {
      waiting_for_idr_frame = true;
      decode_unit_queue = [];
      drop_state_pending = true;
    } in
    IsArmed-act c s1 request_idr_frame (ground arith) (ground arith)

-- A completion counts once a unit has been handed over.
pub IsArmed-complete :
    (c : Host) (u : DecodeUnit) (d : DrStatus) (s : Depacketizer)
    → IsArmed c s
    → handed s.actions ≡ true
    → IsArmed c (complete_video_frame u d s)
unfolding complete_video_frame
IsArmed-complete c u need_idr s h k = IsArmed-refresh c s (IsArmed-IsBlind c s h)
IsArmed-complete c u ok s h k = ground arith
IsArmed-complete c u cleanup s h k = h

-- What may be handed over: a unit that is an IDR frame if it is the first.
abbrev pub MayHand : Host → DecodeUnit → Depacketizer → Type 0
MayHand c u s =
    (handed s.actions || (is_idr u.frame_type || (s.queue_shutdown && not c.direct_submit))) ≡ true

IsArmed-overflow :
    (c : Host) (u : DecodeUnit) (s : Depacketizer) → IsBlind s → IsArmed c (overflow u s)
unfolding overflow
IsArmed-overflow c u s h =
    let s1 = record s {
      waiting_for_idr_frame = true;
      nal_chain = u.buffer_list;
      nal_chain_data_length = u.full_length;
    } in
    let v = IsArmed-drop c s1 (ground arith) in
    IsArmed-act c (record (drop_frame_state s1) { decode_unit_queue = [] }) request_idr_frame
      (ground arith) (ground arith)

IsArmed-offer :
    (c : Host) (f : ℕ) (u : DecodeUnit) (s : Depacketizer)
    → c.direct_submit ≡ false
    → MayHand c u s
    → IsBlind s
    → IsArmed c (offer_unit f u s)
unfolding offer_unit
IsArmed-offer c f u s q k h =
    let s1 = record s { decode_unit_queue = s.decode_unit_queue ++ (u ∷ []) } in
    let n = handed-snoc s.actions (handed_over u) in
    let full = IsArmed-overflow c u s h in
    let shut : s.queue_shutdown ≡ true → IsArmed c (note_complete f s) =
      λ e. IsArmed-note c f s (ground arith) in
    let fits : s.queue_shutdown ≡ false → IsArmed c (note_complete f (act s1 (handed_over u))) =
      λ e.
        let b : IsBlind s1 = ground arith in
        let v = IsBlind-act s1 (handed_over u) (ground arith) b in
        IsArmed-note c f (act s1 (handed_over u)) (ground arith) in
    ground arith

IsArmed-submit :
    (c : Host) (f : ℕ) (u : DecodeUnit) (s : Depacketizer)
    → c.direct_submit ≡ true
    → MayHand c u s
    → IsBlind s
    → IsArmed c (submit_unit c f u s)
unfolding submit_unit
IsArmed-submit c f u s q k h =
    let s1 = act s (handed_over u) in
    let n = handed-snoc s.actions (handed_over u) in
    let b = IsBlind-act s (handed_over u) (ground arith) h in
    let v : handed s1.actions ≡ true = ground arith in
    IsArmed-note c f (complete_video_frame u (c.submit_decode_unit u) s1)
      (IsArmed-complete c u (c.submit_decode_unit u) s1 (ground arith) v)

-- The chain becomes the unit `u`, of type `idr` if the frame is an IDR frame.
IsBlind-take :
    (c : Host) (u : DecodeUnit) (s : Depacketizer)
    → IsBlind s
    → MayHand c u s
    → IsBlind (take_chain u s) × MayHand c u (take_chain u s)
IsBlind-take c u s h k =
    let s' = record s { nal_chain = []; nal_chain_data_length = 0 } in
    let v : IsBlind s' = ground arith in
    let w = IsBlind-act s' key_frame_received (ground arith) v in
    let e = handed-snoc s.actions key_frame_received in ground arith

unit_type-idr : (k : BufferType) (t : FrameType) → is_idr t ≡ true → is_idr (unit_type k t) ≡ true
unfolding unit_type
unit_type-idr picdata t e = e
unit_type-idr sps t e = refl
unit_type-idr pps t e = refl
unit_type-idr vps t e = refl

abbrev pub has_entries : List Lentry → Bool
has_entries [] = false
has_entries (e ∷ es) = true

-- The frame in the chain is an IDR frame, or needs not be one.
abbrev pub MaySend : Host → Depacketizer → Type 0
MaySend c s =
    (handed s.actions || (is_idr s.frame_type || (s.queue_shutdown && not c.direct_submit))) ≡ true

pub IsArmed-reassemble :
    (c : Host) (f : ℕ) (s : Depacketizer)
    → has_entries s.nal_chain ≡ true
    → MaySend c s
    → IsBlind s
    → IsArmed c (reassemble_frame c f s)
unfolding reassemble_frame unit_of
IsArmed-reassemble c f s n m h = over s.nal_chain n
  where
    ready :
        (e : Lentry)
        → IsBlind (take_chain (unit_of c f e s) s)
          × MayHand c (unit_of c f e s) (take_chain (unit_of c f e s) s)
    ready e =
        let t = unit_type-idr e.buffer_type s.frame_type in
        IsBlind-take c (unit_of c f e s) s h (ground arith)

    hand :
        (e : Lentry) (d : Bool)
        → c.direct_submit ≡ d
        → IsArmed c (elim d [
          | true ↦ submit_unit c f (unit_of c f e s) (take_chain (unit_of c f e s) s)
          | false ↦ offer_unit f (unit_of c f e s) (take_chain (unit_of c f e s) s)
        ])
    hand e true q =
        IsArmed-submit c f (unit_of c f e s) (take_chain (unit_of c f e s) s) q (ready e).1
          (ready e).0
    hand e false q =
        IsArmed-offer c f (unit_of c f e s) (take_chain (unit_of c f e s) s) q (ready e).1
          (ready e).0

    over :
        (chain : List Lentry)
        → has_entries chain ≡ true
        → IsArmed c (elim chain [
          | [] ↦ s
          | e ∷ es ↦ elim c.direct_submit [
            | true ↦ submit_unit c f (unit_of c f e s) (take_chain (unit_of c f e s) s)
            | false ↦ offer_unit f (unit_of c f e s) (take_chain (unit_of c f e s) s)
          ]
        ])
    over [] z = absurd cc
    over (e ∷ es) z = hand e c.direct_submit refl

-- A frame that is whole is handed over only if it may be the first.
pub IsArmed-whole :
    (c : Host) (f : ℕ) (s : Depacketizer)
    → has_entries s.nal_chain ≡ true
    → MaySend c s
    → IsBlind s
    → IsArmed c (complete_frame c f s)
unfolding complete_frame
IsArmed-whole c f s n m h =
    let d = IsArmed-drop c s h in
    let r = IsArmed-reassemble c f s n m h in
    let s1 = record s { drop_state_pending = false } in
    let b : IsBlind s1 = ground arith in let q = IsArmed-reassemble c f s1 n m b in ground arith

pub IsArmed-finish :
    (c : Host) (f : ℕ) (s : Depacketizer)
    → has_entries s.nal_chain ≡ true
    → IsArmed c s
    → IsArmed c (finish_frame c f s)
unfolding finish_frame report_wait
IsArmed-finish c f s n h =
    let s' = record s { decoding_frame = false; next_frame_number = add_u32 f 1 } in
    let b : IsBlind s' = ground arith in
    let r1 = IsBlind-act s' request_idr_frame (ground arith) b in
    let r2 = IsBlind-act s' (detected_frame_loss s'.start_frame_number f) (ground arith) b in
    let s1 = record (report_wait f s') { waiting_for_next_successful_frame = false } in
    let b1 : IsBlind s1 = ground arith in
    holds_if (IsArmed c) (s'.waiting_for_idr_frame || s'.waiting_for_ref_inval_frame)
      (drop_frame_state s1) (complete_frame c f s') (λ e. IsArmed-drop c s1 b1)
      (λ e. IsArmed-whole c f s' n (ground arith) b)
