-- ===== src/Depacketizer/First.antt =====
-- The first decode unit after a start: what is handed over while the decoder has seen no IDR
-- frame.
pub mod Deliver
pub mod Take
pub mod Arrive
use tesla_moonlight_ubuntu.Base.{
  ℕ, ◌+◌, ◌≤◌, ◌<◌, ◌≡◌, ◌≢◌, refl, sym, ap, ◌∙◌, ◌⊎◌, inl, inr, Bool, true, false, not, ◌||◌, ◌&&◌,
  List, [], ◌∷◌, ◌++◌, arith, ltb, ◌==◌, length, Bool-cases, holds_if, if◌then◌else◌,
}
use mathlib.Core.Path.{subst}
use tesla_moonlight_ubuntu.Depacketizer.Types.{
  Host, BufferType, picdata, sps, pps, vps, FrameType, pframe, idr, DrStatus, ok, need_idr, cleanup,
  Lentry, DecodeUnit, Action, request_idr_frame, detected_frame_loss, received_complete_frame,
  key_frame_received, handed_over, Depacketizer, act, add_u32, cleanup_frame_state,
}
use tesla_moonlight_ubuntu.Depacketizer.Drop.{
  await_recovery, count_drop, drop_frame_state, lose_frame, notify_frame_lost,
  request_decoder_refresh, complete_video_frame,
}
use tesla_moonlight_ubuntu.Depacketizer.Reassemble.{
  unit_type, unit_of, take_chain, overflow, note_complete, offer_unit, submit_unit,
  reassemble_frame,
}

abbrev pub is_idr : FrameType → Bool
is_idr idr = true
is_idr pframe = false

abbrev pub hands : Action → Bool
hands (handed_over u) = true
hands request_idr_frame = false
hands (detected_frame_loss a b) = false
hands (received_complete_frame f) = false
hands key_frame_received = false

-- Has a decode unit been handed over?
abbrev pub handed : List Action → Bool
handed [] = false
handed (a ∷ acts) = hands a || handed acts

-- Is the first decode unit handed over, if any, an IDR frame?
abbrev pub idr_first : List Action → Bool
idr_first [] = true
idr_first (handed_over u ∷ acts) = is_idr u.frame_type
idr_first (request_idr_frame ∷ acts) = idr_first acts
idr_first (detected_frame_loss a b ∷ acts) = idr_first acts
idr_first (received_complete_frame f ∷ acts) = idr_first acts
idr_first (key_frame_received ∷ acts) = idr_first acts

-- Reference frame invalidation cannot take the place of an IDR frame: it is off, or no IDR frame
-- has been processed.
abbrev pub needs_idr : Depacketizer → Bool
needs_idr s = s.strict_idr_frame_wait || not s.idr_frame_processed

-- An IDR frame is awaited or being received, or the queue takes no more units.
abbrev pub holds_back : Host → Depacketizer → Bool
holds_back c s =
    s.waiting_for_idr_frame
    || ((s.decoding_frame && is_idr s.frame_type) || (s.queue_shutdown && not c.direct_submit))

pub record IsArmed (c : Host) (s : Depacketizer) : Type 0 where
  pub first : idr_first s.actions ≡ true
  pub armed : (handed s.actions || (needs_idr s && holds_back c s)) ≡ true

pub handed-snoc :
    (acts : List Action) (a : Action) → handed (acts ++ (a ∷ [])) ≡ (handed acts || hands a)
handed-snoc [] a = ground arith
handed-snoc (b ∷ acts) a = ground (arith, handed-snoc acts a)

abbrev pub fits_first : Action → Bool
fits_first (handed_over u) = is_idr u.frame_type
fits_first request_idr_frame = true
fits_first (detected_frame_loss a b) = true
fits_first (received_complete_frame f) = true
fits_first key_frame_received = true

pub idr_first-snoc :
    (acts : List Action) (a : Action)
    → idr_first acts ≡ true
    → (handed acts || fits_first a) ≡ true
    → idr_first (acts ++ (a ∷ [])) ≡ true
idr_first-snoc [] (handed_over u) h k = k
idr_first-snoc [] request_idr_frame h k = refl
idr_first-snoc [] (detected_frame_loss x y) h k = refl
idr_first-snoc [] (received_complete_frame f) h k = refl
idr_first-snoc [] key_frame_received h k = refl
idr_first-snoc (handed_over u ∷ acts) a h k = h
idr_first-snoc (request_idr_frame ∷ acts) a h k = idr_first-snoc acts a h k
idr_first-snoc (detected_frame_loss x y ∷ acts) a h k = idr_first-snoc acts a h k
idr_first-snoc (received_complete_frame f ∷ acts) a h k = idr_first-snoc acts a h k
idr_first-snoc (key_frame_received ∷ acts) a h k = idr_first-snoc acts a h k

-- An action that fits in keeps the state armed.
pub IsArmed-act :
    (c : Host) (s : Depacketizer) (a : Action)
    → (handed s.actions || fits_first a) ≡ true
    → IsArmed c s
    → IsArmed c (act s a)
IsArmed-act c s a k h =
    let e = handed-snoc s.actions a in let f = idr_first-snoc s.actions a h.first k in ground arith

-- A state in which nothing has been handed over needs an IDR frame.
pub record IsBlind (s : Depacketizer) : Type 0 where
  pub first : idr_first s.actions ≡ true
  pub blind : (handed s.actions || needs_idr s) ≡ true

pub IsArmed-IsBlind : (c : Host) (s : Depacketizer) → IsArmed c s → IsBlind s
IsArmed-IsBlind c s h = ground arith

pub IsArmed-await : (c : Host) (s : Depacketizer) → IsBlind s → IsArmed c (await_recovery s)
unfolding await_recovery
IsArmed-await c s h = ground arith

pub IsArmed-count : (c : Host) (s : Depacketizer) → IsArmed c s → IsArmed c (count_drop s)
unfolding count_drop
IsArmed-count c s h =
    let s1 = record s { consecutive_frame_drops = 0; waiting_for_idr_frame = true } in
    let v : IsArmed c s1 = ground arith in
    let w = IsArmed-act c s1 request_idr_frame (ground arith) v in ground arith

-- A drop arms every blind state.
pub IsArmed-drop : (c : Host) (s : Depacketizer) → IsBlind s → IsArmed c (drop_frame_state s)
unfolding drop_frame_state cleanup_frame_state
IsArmed-drop c s h =
    let v = IsArmed-count c (await_recovery s) (IsArmed-await c s h) in ground arith

pub drop-decoding : (s : Depacketizer) → (drop_frame_state s).decoding_frame ≡ s.decoding_frame
unfolding drop_frame_state cleanup_frame_state count_drop await_recovery
drop-decoding s = ground arith
