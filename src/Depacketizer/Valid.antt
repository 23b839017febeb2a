-- ===== src/Depacketizer/Valid.antt =====
-- What holds of the depacketizer between two calls.
use tesla_moonlight_ubuntu.Base.{
  ℕ, ◌+◌, ◌≤◌, ◌<◌, ◌≡◌, true, false, List, [], ◌∷◌, arith, ◌==◌, length, All, All-append, holds_if,
}
use tesla_moonlight_ubuntu.Depacketizer.Types.{
  picdata, FrameType, pframe, idr, DrStatus, ok, need_idr, cleanup, Lentry, DecodeUnit, Action,
  request_idr_frame, detected_frame_loss, received_complete_frame, key_frame_received, handed_over,
  Depacketizer, act, add_u32, cleanup_frame_state,
}
use tesla_moonlight_ubuntu.Depacketizer.Drop.{
  await_recovery, count_drop, drop_frame_state, lose_frame, notify_frame_lost,
  request_decoder_refresh, complete_video_frame,
}

-- The bytes of a chain
abbrev pub total : List Lentry → ℕ
total [] = 0
total (e ∷ es) = length e.buffer + total es

-- The frame type that a first entry allows: what is no picture data begins an IDR frame.
abbrev pub Begins : FrameType → List Lentry → Type 0
Begins t [] = ⊥
Begins idr (e ∷ es) = Unit
Begins pframe (e ∷ es) = e.buffer_type ≡ picdata

-- A decode unit has a buffer, its length is that of its buffers together, and a P-frame begins
-- with picture data.
pub record IsUnit (u : DecodeUnit) : Type 0 where
  pub whole : u.full_length ≡ total u.buffer_list
  pub begins : Begins u.frame_type u.buffer_list

abbrev pub UnitIn : Action → Type 0
UnitIn (handed_over u) = IsUnit u
UnitIn request_idr_frame = Unit
UnitIn (detected_frame_loss a b) = Unit
UnitIn (received_complete_frame f) = Unit
UnitIn key_frame_received = Unit

pub record IsValid (s : Depacketizer) : Type 0 where
  pub chain_size : s.nal_chain_data_length ≡ total s.nal_chain
  pub few_drops : s.consecutive_frame_drops < 120
  pub ref_inval :
      s.waiting_for_ref_inval_frame ≡ true
      → (s.strict_idr_frame_wait ≡ false) × (s.idr_frame_processed ≡ true)
  pub queue_bounded : length s.decode_unit_queue ≤ 15
  pub units : All IsUnit s.decode_unit_queue
  pub told : All UnitIn s.actions

pub IsValid-act : (s : Depacketizer) (a : Action) → UnitIn a → IsValid s → IsValid (act s a)
IsValid-act s a u h = let told = All-append UnitIn s.actions (a ∷ []) h.told (u, tt) in ground arith

pub IsValid-cleanup : (s : Depacketizer) → IsValid s → IsValid (cleanup_frame_state s)
unfolding cleanup_frame_state
IsValid-cleanup s h = ground arith

IsValid-await : (s : Depacketizer) → IsValid s → IsValid (await_recovery s)
unfolding await_recovery
IsValid-await s h = ground arith

IsValid-count : (s : Depacketizer) → IsValid s → IsValid (count_drop s)
unfolding count_drop
IsValid-count s h =
    holds_if IsValid (add_u32 s.consecutive_frame_drops 1 == 120)
      (act (record s { consecutive_frame_drops = 0; waiting_for_idr_frame = true })
        request_idr_frame)
      (record s { consecutive_frame_drops = add_u32 s.consecutive_frame_drops 1 })
      (λ e.
        IsValid-act (record s { consecutive_frame_drops = 0; waiting_for_idr_frame = true })
          request_idr_frame tt (ground arith))
      (λ e. ground arith)

pub IsValid-drop : (s : Depacketizer) → IsValid s → IsValid (drop_frame_state s)
unfolding drop_frame_state
IsValid-drop s h =
    IsValid-cleanup (count_drop (await_recovery s))
      (IsValid-count (await_recovery s) (IsValid-await s h))

pub IsValid-lose : (f : ℕ) (s : Depacketizer) → IsValid s → IsValid (lose_frame f s)
unfolding lose_frame
IsValid-lose f s h =
    let s1 = record s { decoding_frame = false; next_frame_number = add_u32 f 1 } in
    let s' = drop_frame_state s1 in
    let v = IsValid-drop s1 (ground arith) in
    holds_if IsValid s'.waiting_for_idr_frame (act s' request_idr_frame)
      (act s' (detected_frame_loss s'.start_frame_number f))
      (λ e. IsValid-act s' request_idr_frame tt v)
      (λ e. IsValid-act s' (detected_frame_loss s'.start_frame_number f) tt v)

pub IsValid-notify : (f : ℕ) (s : Depacketizer) → IsValid s → IsValid (notify_frame_lost f s)
unfolding notify_frame_lost
IsValid-notify f s h =
    let s' = drop_frame_state s in
    let v = IsValid-drop s h in
    holds_if IsValid s'.waiting_for_idr_frame s'
      (act (record s' { next_frame_number = add_u32 f 1 })
        (detected_frame_loss s'.start_frame_number f))
      (λ e. v)
      (λ e.
        IsValid-act (record s' { next_frame_number = add_u32 f 1 })
          (detected_frame_loss s'.start_frame_number f) tt (ground arith))

pub IsValid-refresh : (s : Depacketizer) → IsValid s → IsValid (request_decoder_refresh s)
unfolding request_decoder_refresh
IsValid-refresh s h =
    IsValid-act
      (record s { waiting_for_idr_frame = true; decode_unit_queue = []; drop_state_pending = true })
      request_idr_frame tt (ground arith)

pub IsValid-complete :
    (u : DecodeUnit) (d : DrStatus) (s : Depacketizer)
    → IsValid s
    → IsValid (complete_video_frame u d s)
unfolding complete_video_frame
IsValid-complete u need_idr s h = IsValid-refresh s h
IsValid-complete u ok s h = ground arith
IsValid-complete u cleanup s h = h
