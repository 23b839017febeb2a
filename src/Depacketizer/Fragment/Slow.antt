-- ===== src/Depacketizer/Fragment/Slow.antt =====
-- The slow path comes to the end of the packet, and what it appends is no longer than the packet.
use tesla_moonlight_ubuntu.Base.{
  ℕ, zero, suc, ◌+◌, ◌≤◌, ◌<◌, ◌≡◌, refl, inl, inr, Bool, true, false, ◌||◌, arith, Bool-cases,
  holds_if, if◌then◌else◌,
}
use tesla_moonlight_ubuntu.Depacketizer.Types.{Host, Depacketizer}
use tesla_moonlight_ubuntu.Depacketizer.Nal.{
  BufferDesc, at_start_sequence, is_seq_reference_frame_start, is_access_unit_delimiter, is_sei_nal,
  skip_to_next_nal, skip_to_next_nal_or_end, skip_while, not_empty,
}
use tesla_moonlight_ubuntu.Depacketizer.Nal.Loops.{skip_while-IsWithin}
use tesla_moonlight_ubuntu.Depacketizer.Nal.Window.{
  IsWithin, IsWithin-refl, IsWithin-trans, skip-IsWithin, skip-progress,
}
use tesla_moonlight_ubuntu.Depacketizer.Fragment.{
  skip_prefix, skip_unit, queue_fragment, slow_step, process_payload_slow,
}

pub skip_prefix-IsWithin : (c : Host) (b : BufferDesc) → IsWithin b (skip_prefix c b)
unfolding skip_prefix skip_to_next_nal
skip_prefix-IsWithin c b =
    let b' = if at_start_sequence b then b else skip_to_next_nal_or_end b in
    let p : BufferDesc → Bool = λ x. is_access_unit_delimiter c x || is_sei_nal c x in
    IsWithin-trans b b' (skip_while b'.size p b')
      (holds_if (IsWithin b) (at_start_sequence b) b (skip_to_next_nal_or_end b)
        (λ z. IsWithin-refl b) (λ z. skip-IsWithin b))
      (skip_while-IsWithin b'.size p b')

pub skip_unit-IsWithin : (d : Bool) (b : BufferDesc) → IsWithin b (skip_unit d b)
unfolding skip_unit
skip_unit-IsWithin false b = skip-IsWithin b
skip_unit-IsWithin true b =
    let b' = skip_to_next_nal_or_end b in
    IsWithin-trans b b' (skip_while b'.size not_empty b') (skip-IsWithin b)
      (skip_while-IsWithin b'.size not_empty b')

-- A unit takes at least one byte if any is left.
pub skip_unit-progress : (d : Bool) (b : BufferDesc) → 0 < b.size → (skip_unit d b).size < b.size
unfolding skip_unit
skip_unit-progress false b h = skip-progress b h
skip_unit-progress true b h =
    let b' = skip_to_next_nal_or_end b in
    let w = skip_while-IsWithin b'.size not_empty b' in
    let p = w.same_end in let q = w.forward in let r = skip-progress b h in omega arith

pub slow_step-progress :
    (c : Host) (b : BufferDesc) (s : Depacketizer) → 0 < b.size → (slow_step c b s).0.size < b.size
unfolding slow_step
slow_step-progress c b s h =
    let start = skip_prefix c b in
    let d = is_seq_reference_frame_start c start in
    let w = skip_prefix-IsWithin c b in
    let v = skip_unit-IsWithin d start in
    let p = w.same_end in
    let q = w.forward in
    let r = v.same_end in let t = v.forward in let u = skip_unit-progress d start in ground arith

pub process_payload_slow-stay :
    (c : Host) (f : ℕ) (b : BufferDesc) (s : Depacketizer)
    → not_empty b ≡ false
    → process_payload_slow c f b s ≡ (b, s)
unfolding process_payload_slow
process_payload_slow-stay c zero b s e = refl
process_payload_slow-stay c (suc f) b s e = rw (e, process_payload_slow) refl

pub process_payload_slow-move :
    (c : Host) (f : ℕ) (b : BufferDesc) (s : Depacketizer)
    → not_empty b ≡ true
    → process_payload_slow c (suc f) b s
      ≡ process_payload_slow c f (slow_step c b s).0 (slow_step c b s).1
unfolding process_payload_slow
process_payload_slow-move c f b s e = rw (e, process_payload_slow) refl

-- On at least the number of bytes as fuel, the slow path leaves its loop because no byte is left.
pub process_payload_slow_ends :
    (c : Host) (b : BufferDesc) (s : Depacketizer) (f : ℕ)
    → b.size ≤ f
    → (process_payload_slow c f b s).0.size ≡ 0
unfolding process_payload_slow
process_payload_slow_ends c b s zero le = omega arith
process_payload_slow_ends c b s (suc f) le = elim (Bool-cases (not_empty b)) [
  | inl e ↦
      let step = slow_step-progress c b s (ground (arith, e)) in
      rw (process_payload_slow-move c f b s e)
        (process_payload_slow_ends c (slow_step c b s).0 (slow_step c b s).1 f (omega arith))
  | inr e ↦
      let z : b.size ≡ 0 = ground (arith, e) in rw (process_payload_slow-stay c (suc f) b s e) z
]

-- What a round appends is taken off what is left.
slow_step-taken :
    (c : Host) (b : BufferDesc) (s : Depacketizer)
    → (slow_step c b s).1.nal_chain_data_length + (slow_step c b s).0.size
      ≤ s.nal_chain_data_length + b.size
unfolding slow_step queue_fragment
slow_step-taken c b s =
    let start = skip_prefix c b in
    let d = is_seq_reference_frame_start c start in
    let w = skip_prefix-IsWithin c b in
    let v = skip_unit-IsWithin d start in
    let p = w.same_end in
    let q = w.forward in let r = v.same_end in let t = v.forward in ground arith

-- The slow path never cuts more out of a packet than its bytes: the length of the chain grows by no
-- more than the number of bytes that the cursor has moved over, whatever the fuel.
pub process_payload_slow_within :
    (c : Host) (f : ℕ) (b : BufferDesc) (s : Depacketizer)
    → (process_payload_slow c f b s).1.nal_chain_data_length + (process_payload_slow c f b s).0.size
      ≤ s.nal_chain_data_length + b.size
unfolding process_payload_slow
process_payload_slow_within c zero b s = omega arith
process_payload_slow_within c (suc f) b s = elim (Bool-cases (not_empty b)) [
  | inl e ↦
      let n = slow_step c b s in
      let step = slow_step-taken c b s in
      let rest = process_payload_slow_within c f n.0 n.1 in
      rw (process_payload_slow-move c f b s e) (omega arith)
  | inr e ↦ rw (process_payload_slow-stay c (suc f) b s e) (omega arith)
]
