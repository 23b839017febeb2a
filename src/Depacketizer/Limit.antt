-- ===== src/Depacketizer/Limit.antt =====
-- Dropping frame after frame.
use tesla_moonlight_ubuntu.Base.{
  ℕ, zero, suc, ◌+◌, ◌/◌, ◌%◌, ◌<◌, ◌≡◌, refl, List, [], ◌∷◌, ◌++◌, arith,
}
use tesla_moonlight_ubuntu.Depacketizer.Types.{
  Action, request_idr_frame, detected_frame_loss, received_complete_frame, key_frame_received,
  handed_over, Depacketizer, cleanup_frame_state,
}
use tesla_moonlight_ubuntu.Depacketizer.Drop.{await_recovery, count_drop, drop_frame_state}

abbrev pub drops : ℕ → Depacketizer → Depacketizer
drops zero s = s
drops (suc n) s = drop_frame_state (drops n s)

abbrev pub idr_requests : List Action → ℕ
idr_requests [] = 0
idr_requests (request_idr_frame ∷ acts) = 1 + idr_requests acts
idr_requests (detected_frame_loss x y ∷ acts) = idr_requests acts
idr_requests (received_complete_frame f ∷ acts) = idr_requests acts
idr_requests (key_frame_received ∷ acts) = idr_requests acts
idr_requests (handed_over u ∷ acts) = idr_requests acts

idr_requests-snoc :
    (acts : List Action) → idr_requests (acts ++ (request_idr_frame ∷ [])) ≡ idr_requests acts + 1
idr_requests-snoc [] = refl
idr_requests-snoc (request_idr_frame ∷ acts) = ground (arith, idr_requests-snoc acts)
idr_requests-snoc (detected_frame_loss x y ∷ acts) = idr_requests-snoc acts
idr_requests-snoc (received_complete_frame f ∷ acts) = idr_requests-snoc acts
idr_requests-snoc (key_frame_received ∷ acts) = idr_requests-snoc acts
idr_requests-snoc (handed_over u ∷ acts) = idr_requests-snoc acts

-- The count after one drop, and the requests
drop-count :
    (s : Depacketizer)
    → s.consecutive_frame_drops < 120
    → ((drop_frame_state s).consecutive_frame_drops ≡ (s.consecutive_frame_drops + 1) % 120)
      × (idr_requests (drop_frame_state s).actions
          ≡ idr_requests s.actions + (s.consecutive_frame_drops + 1) / 120)
unfolding drop_frame_state count_drop await_recovery cleanup_frame_state
drop-count s h = let e = idr_requests-snoc s.actions in ground arith

-- From fewer than 120 counted drops, any number of drops without a whole frame in between: an IDR
-- frame is requested whenever the count reaches 120, and only then, and the count starts over.
pub drops_request_idr :
    (n : ℕ) (s : Depacketizer)
    → s.consecutive_frame_drops < 120
    → ((drops n s).consecutive_frame_drops ≡ (s.consecutive_frame_drops + n) % 120)
      × (idr_requests (drops n s).actions
          ≡ idr_requests s.actions + (s.consecutive_frame_drops + n) / 120)
drops_request_idr zero s h = (omega arith, omega arith)
drops_request_idr (suc n) s h =
    let ih = drops_request_idr n s h in
    let step = drop-count (drops n s) (omega (arith, ih.0)) in
    (omega (arith, ih.0, step.0), omega (arith, ih.0, ih.1, step.1))
