-- ===== src/Depacketizer/Keep.antt =====
-- A packet keeps the depacketizer's invariant.
use tesla_moonlight_ubuntu.Base.{
  ℕ, zero, suc, ◌+◌, ◌≤◌, ◌≡◌, refl, sym, ap, inl, inr, Bool, true, false, List, [], ◌∷◌, ◌++◌,
  arith, ◌==◌, length, length-append, drop, length-take, length-drop, All-append, Bool-cases,
  holds_if, if◌then◌else◌,
}
use mathlib.Core.Path.{subst}
use tesla_moonlight_ubuntu.Depacketizer.Types.{
  Host, BufferType, picdata, sps, pps, vps, FrameType, pframe, idr, Lentry, DecodeUnit,
  request_idr_frame, received_complete_frame, key_frame_received, handed_over, Depacketizer, act,
}
use tesla_moonlight_ubuntu.Depacketizer.Drop.{drop_frame_state, complete_video_frame}
use tesla_moonlight_ubuntu.Depacketizer.Nal.{BufferDesc, is_seq_reference_frame_start, not_empty}
use tesla_moonlight_ubuntu.Depacketizer.Nal.Window.{IsWithin}
use tesla_moonlight_ubuntu.Depacketizer.Fragment.{
  window, queue_fragment, get_buffer_flags, start_idr_frame, skip_prefix, skip_unit, between,
  slow_step, process_payload_slow,
}
use tesla_moonlight_ubuntu.Depacketizer.Fragment.Slow.{
  skip_prefix-IsWithin, skip_unit-IsWithin, process_payload_slow-move, process_payload_slow-stay,
}
use tesla_moonlight_ubuntu.Depacketizer.Reassemble.{
  unit_type, unit_of, take_chain, overflow, note_complete, offer_unit, submit_unit,
  reassemble_frame,
}
use tesla_moonlight_ubuntu.Depacketizer.Valid.{
  total, Begins, IsUnit, IsValid, IsValid-act, IsValid-drop, IsValid-complete,
}

-- The cursor's bytes exist.
abbrev pub IsInside : BufferDesc → Type 0
IsInside b = b.offset + b.size ≤ length b.bytes

pub IsInside-within : (b r : BufferDesc) → IsWithin b r → IsInside b → IsInside r
IsInside-within b r w h =
    let e = w.same_end in
    let z : length r.bytes ≡ length b.bytes = ap length w.same_bytes in omega arith

pub length-window : (b : BufferDesc) → IsInside b → length (window b) ≡ b.size
length-window b h =
    let e = length-take b.size (drop b.offset b.bytes) in
    let d = length-drop b.offset b.bytes in omega arith

total-append : (xs ys : List Lentry) → total (xs ++ ys) ≡ total xs + total ys
total-append [] ys = omega arith
total-append (x ∷ xs) ys = omega (arith, total-append xs ys)

pub IsValid-fragment :
    (c : Host) (b : BufferDesc) (s : Depacketizer)
    → IsInside b
    → IsValid s
    → IsValid (queue_fragment c b s)
unfolding queue_fragment
IsValid-fragment c b s i h =
    let e : Lentry = record { buffer = window b; buffer_type = get_buffer_flags c b } in
    let t = total-append s.nal_chain (e ∷ []) in
    let l = length-window b i in
    let z : s.nal_chain_data_length + b.size ≡ total (s.nal_chain ++ (e ∷ [])) =
      omega (arith, h.chain_size) in
    ground arith

pub slow_step-IsValid :
    (c : Host) (b : BufferDesc) (s : Depacketizer)
    → IsInside b
    → IsValid s
    → IsInside (slow_step c b s).0 × IsValid (slow_step c b s).1
unfolding slow_step
slow_step-IsValid c b s i h =
    let start = skip_prefix c b in
    let d = is_seq_reference_frame_start c start in
    let stop = skip_unit d start in
    let w = skip_prefix-IsWithin c b in
    let v = skip_unit-IsWithin d start in
    let j = IsInside-within b start w i in
    let k = IsInside-within start stop v j in
    let p = v.same_end in
    let q = v.forward in
    let in_between : IsInside (between start stop) = omega arith in
    (
      k,
      IsValid-fragment c (between start stop) (if d then start_idr_frame s else s) in_between
          (holds_if IsValid d (start_idr_frame s) s (λ e. ground arith) (λ e. h)),
    )

pub IsValid-slow :
    (c : Host) (f : ℕ) (b : BufferDesc) (s : Depacketizer)
    → IsInside b
    → IsValid s
    → IsValid (process_payload_slow c f b s).1
unfolding process_payload_slow
IsValid-slow c zero b s i h = h
IsValid-slow c (suc f) b s i h = elim (Bool-cases (not_empty b)) [
  | inr e ↦ rw (process_payload_slow-stay c (suc f) b s e) h
  | inl e ↦
      let step = slow_step-IsValid c b s i h in
      rw (process_payload_slow-move c f b s e)
        (IsValid-slow c f (slow_step c b s).0 (slow_step c b s).1 step.0 step.1)
]

unit_of-IsUnit :
    (c : Host) (f : ℕ) (e : Lentry) (s : Depacketizer)
    → IsValid s
    → ((es : List Lentry) × (s.nal_chain ≡ e ∷ es))
    → IsUnit (unit_of c f e s)
unfolding unit_of unit_type
unit_of-IsUnit c f e s h (es, z) = record {
  whole = h.chain_size;
  begins =
      subst (Begins (unit_type e.buffer_type s.frame_type)) (sym z)
        (begins e.buffer_type s.frame_type refl);
}
  where
    begins : (k : BufferType) (t : FrameType) → e.buffer_type ≡ k → Begins (unit_type k t) (e ∷ es)
    begins picdata idr p = tt
    begins picdata pframe p = p
    begins sps t p = tt
    begins pps t p = tt
    begins vps t p = tt

IsValid-take : (u : DecodeUnit) (s : Depacketizer) → IsValid s → IsValid (take_chain u s)
IsValid-take u s h =
    let s' = record s { nal_chain = []; nal_chain_data_length = 0 } in
    let v : IsValid s' = ground arith in
    let w = IsValid-act s' key_frame_received tt v in ground arith

IsValid-note : (f : ℕ) (s : Depacketizer) → IsValid s → IsValid (note_complete f s)
unfolding note_complete
IsValid-note f s h = let w = IsValid-act s (received_complete_frame f) tt h in ground arith

IsValid-overflow :
    (u : DecodeUnit) (s : Depacketizer) → IsUnit u → IsValid s → IsValid (overflow u s)
unfolding overflow
IsValid-overflow u s k h =
    let s1 = record s {
      waiting_for_idr_frame = true;
      nal_chain = u.buffer_list;
      nal_chain_data_length = u.full_length;
    } in
    let v = IsValid-drop s1 (ground arith) in
    IsValid-act (record (drop_frame_state s1) { decode_unit_queue = [] }) request_idr_frame tt
      (ground arith)

IsValid-offer :
    (f : ℕ) (u : DecodeUnit) (s : Depacketizer) → IsUnit u → IsValid s → IsValid (offer_unit f u s)
unfolding offer_unit
IsValid-offer f u s k h =
    let s1 = record s { decode_unit_queue = s.decode_unit_queue ++ (u ∷ []) } in
    let units = All-append IsUnit s.decode_unit_queue (u ∷ []) h.units (k, tt) in
    let n = length-append s.decode_unit_queue (u ∷ []) in
    let shut = IsValid-note f s h in
    let full = IsValid-overflow u s k h in
    let fits : (length s.decode_unit_queue == 15) ≡ false
        → IsValid (note_complete f (act s1 (handed_over u))) =
      λ e.
        IsValid-note f (act s1 (handed_over u)) (IsValid-act s1 (handed_over u) k (ground arith)) in
    ground arith

IsValid-submit :
    (c : Host) (f : ℕ) (u : DecodeUnit) (s : Depacketizer)
    → IsUnit u
    → IsValid s
    → IsValid (submit_unit c f u s)
unfolding submit_unit
IsValid-submit c f u s k h =
    let s1 = act s (handed_over u) in
    IsValid-note f (complete_video_frame u (c.submit_decode_unit u) s1)
      (IsValid-complete u (c.submit_decode_unit u) s1 (IsValid-act s (handed_over u) k h))

pub IsValid-reassemble :
    (c : Host) (f : ℕ) (s : Depacketizer) → IsValid s → IsValid (reassemble_frame c f s)
unfolding reassemble_frame
IsValid-reassemble c f s h = over s.nal_chain refl
  where
    unit : (e : Lentry) (es : List Lentry) → s.nal_chain ≡ e ∷ es → IsUnit (unit_of c f e s)
    unit e es z = unit_of-IsUnit c f e s h (es, z)

    hand :
        (e : Lentry) (d : Bool)
        → IsUnit (unit_of c f e s)
        → IsValid (elim d [
          | true ↦ submit_unit c f (unit_of c f e s) (take_chain (unit_of c f e s) s)
          | false ↦ offer_unit f (unit_of c f e s) (take_chain (unit_of c f e s) s)
        ])
    hand e true k =
        IsValid-submit c f (unit_of c f e s) (take_chain (unit_of c f e s) s) k
          (IsValid-take (unit_of c f e s) s h)
    hand e false k =
        IsValid-offer f (unit_of c f e s) (take_chain (unit_of c f e s) s) k
          (IsValid-take (unit_of c f e s) s h)

    over :
        (chain : List Lentry)
        → s.nal_chain ≡ chain
        → IsValid (elim chain [
          | [] ↦ s
          | e ∷ es ↦ elim c.direct_submit [
            | true ↦ submit_unit c f (unit_of c f e s) (take_chain (unit_of c f e s) s)
            | false ↦ offer_unit f (unit_of c f e s) (take_chain (unit_of c f e s) s)
          ]
        ])
    over [] z = h
    over (e ∷ es) z = hand e c.direct_submit (unit e es z)
