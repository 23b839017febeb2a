-- ===== src/Depacketizer/First/Take.antt =====
-- Taking in a packet, in an armed state.
use tesla_moonlight_ubuntu.Base.{
  ℕ, zero, suc, ◌≤◌, ◌<◌, ◌≡◌, refl, inl, inr, Bool, true, false, ◌&&◌, List, [], ◌∷◌, ◌++◌, arith,
  Bool-cases, holds_if, if◌then◌else◌, Option-cases,
}
use tesla_moonlight_ubuntu.Seq.{is_before32}
use tesla_moonlight_ubuntu.Depacketizer.Types.{
  Host, pframe, Lentry, detected_frame_loss, Depacketizer, sub_u32,
}
use tesla_moonlight_ubuntu.Depacketizer.Drop.{drop_frame_state}
use tesla_moonlight_ubuntu.Depacketizer.Nal.{
  BufferDesc, is_idr_frame_start, is_picture_parameter_set_nal, skip_to_next_nal, not_empty,
  is_seq_reference_frame_start, get_annex_b_start_sequence,
}
use tesla_moonlight_ubuntu.Depacketizer.Nal.Window.{start_sequence_size}
use tesla_moonlight_ubuntu.Depacketizer.Fragment.{
  queue_fragment, start_idr_frame, slow_step, process_payload_slow, skip_prefix, skip_unit, between,
}
use tesla_moonlight_ubuntu.Depacketizer.Fragment.Slow.{
  process_payload_slow-move, process_payload_slow-stay,
}
use tesla_moonlight_ubuntu.Depacketizer.Header.{
  end_ref_inval_wait, trust_idr_header, read_frame_type, old_host, read_type, read_latency,
  read_payload_length, parse_header,
}
use tesla_moonlight_ubuntu.Depacketizer.Process.{
  note_missing, note_times, begin_frame, append_parsed,
}
use tesla_moonlight_ubuntu.Depacketizer.First.{
  IsArmed, IsBlind, IsArmed-act, IsArmed-drop, drop-decoding,
}
use tesla_moonlight_ubuntu.Depacketizer.First.Deliver.{has_entries}

-- An armed state in the middle of a frame
abbrev pub IsDecoding : Host → Depacketizer → Type 0
IsDecoding c s = IsArmed c s × (s.decoding_frame ≡ true)

pub IsDecoding-begin :
    (c : Host) (f receive pts : ℕ) (s : Depacketizer)
    → s.decoding_frame ≡ false
    → IsArmed c s
    → IsDecoding c (begin_frame f receive pts s)
unfolding begin_frame note_missing note_times
IsDecoding-begin c f receive pts s d h =
    let s1 = record s { next_frame_number = f; waiting_for_next_successful_frame = true } in
    let b : IsBlind s1 = ground arith in
    let v = IsArmed-drop c s1 b in
    let t = drop-decoding s1 in
    let s2 = record (drop_frame_state s1) { decoding_frame = true; frame_type = pframe } in
    let w : IsArmed c s2 = ground arith in
    holds_if
      (λ x.
        IsDecoding c
          (note_times f receive pts (record x { decoding_frame = true; frame_type = pframe })))
      (is_before32 s.next_frame_number f) (drop_frame_state s1) s (λ e. (times s2 w, refl))
      (λ e. (times (record s { decoding_frame = true; frame_type = pframe }) (ground arith), refl))
  where
    times : (x : Depacketizer) → IsArmed c x → IsArmed c (note_times f receive pts x)
    times x k = record { first = k.first; armed = k.armed }

pub IsDecoding-type :
    (c : Host) (f : ℕ) (b : BufferDesc) (s : Depacketizer)
    → IsDecoding c s
    → IsDecoding c (read_type c f b s)
unfolding read_type read_frame_type old_host end_ref_inval_wait trust_idr_header
IsDecoding-type c f b s h =
    let a = h.0 in
    let w =
      IsArmed-act c s (detected_frame_loss s.start_frame_number (sub_u32 f 1)) (ground arith) a in
    ground arith

pub IsDecoding-header :
    (c : Host) (f : ℕ) (b : BufferDesc) (s : Depacketizer)
    → IsDecoding c s
    → IsDecoding c (parse_header c f b s).2
unfolding parse_header read_latency read_payload_length
IsDecoding-header c f b s h =
    payload (read_latency c b (read_type c f b s))
      (latency (read_type c f b s) (IsDecoding-type c f b s h))
  where
    latency : (x : Depacketizer) → IsDecoding c x → IsDecoding c (read_latency c b x)
    latency x k = ground arith

    payload : (x : Depacketizer) → IsDecoding c x → IsDecoding c (read_payload_length c b x)
    payload x k = ground arith

-- What an appended entry leaves: the state of the wait, and a chain that is not empty
unfoldable pub IsAppended : Host → Depacketizer → Type 0
IsAppended c s = IsDecoding c s × (has_entries s.nal_chain ≡ true)

has_entries-snoc : (xs : List Lentry) (e : Lentry) → has_entries (xs ++ (e ∷ [])) ≡ true
has_entries-snoc [] e = refl
has_entries-snoc (x ∷ xs) e = refl

pub IsDecoding-fragment :
    (c : Host) (b : BufferDesc) (s : Depacketizer)
    → IsDecoding c s
    → IsAppended c (queue_fragment c b s)
unfolding queue_fragment IsAppended
IsDecoding-fragment c b s h =
    let a = h.0 in
    ((record { first = a.first; armed = a.armed }, h.1), has_entries-snoc s.nal_chain _)

slow_step-IsAppended :
    (c : Host) (b : BufferDesc) (s : Depacketizer)
    → IsDecoding c s
    → IsAppended c (slow_step c b s).1
unfolding slow_step
slow_step-IsAppended c b s h =
    let start = skip_prefix c b in
    let d = is_seq_reference_frame_start c start in
    let stop = skip_unit d start in
    let a = h.0 in
    IsDecoding-fragment c (between start stop) (if d then start_idr_frame s else s)
      (holds_if (IsDecoding c) d (start_idr_frame s) s (λ e. ground arith) (λ e. h))

slow-IsAppended :
    (c : Host) (f : ℕ) (b : BufferDesc) (s : Depacketizer)
    → IsAppended c s
    → IsAppended c (process_payload_slow c f b s).1
unfolding process_payload_slow IsAppended
slow-IsAppended c zero b s h = h
slow-IsAppended c (suc f) b s h = elim (Bool-cases (not_empty b)) [
  | inr e ↦ rw (process_payload_slow-stay c (suc f) b s e) h
  | inl e ↦
      rw (process_payload_slow-move c f b s e) (
        slow-IsAppended c f (slow_step c b s).0 (slow_step c b s).1
          (slow_step-IsAppended c b s h.0))
]

-- From data that is left, the slow path appends an entry.
IsDecoding-slow :
    (c : Host) (f : ℕ) (b : BufferDesc) (s : Depacketizer)
    → 0 < b.size
    → b.size ≤ f
    → IsDecoding c s
    → IsAppended c (process_payload_slow c f b s).1
IsDecoding-slow c zero b s lt le h = absurd (omega arith)
IsDecoding-slow c (suc f) b s lt le h =
    rw (process_payload_slow-move c f b s (ground arith))
      (slow-IsAppended c f (slow_step c b s).0 (slow_step c b s).1 (slow_step-IsAppended c b s h))

idr_frame_start_size : (c : Host) (b : BufferDesc) → is_idr_frame_start c b ≡ true → 0 < b.size
unfolding is_idr_frame_start
idr_frame_start_size c b e = elim (Option-cases (get_annex_b_start_sequence b)) [
  | inl z ↦ ground (arith, z, e)
  | inr (n, z) ↦ omega (arith, (start_sequence_size b n z).1)
]

pub IsDecoding-parsed :
    (c : Host) (first : Bool) (b : BufferDesc) (s : Depacketizer)
    → IsDecoding c s
    → IsAppended c (append_parsed c first b s)
unfolding append_parsed
IsDecoding-parsed c first b s h =
    let skip = first && is_picture_parameter_set_nal c b in
    let b' = if skip then skip_to_next_nal b else b in
    holds_if (IsAppended c) (first && is_idr_frame_start c b) (process_payload_slow c b.size b s).1
      (queue_fragment c b' s)
      (λ e.
        IsDecoding-slow c b.size b s (idr_frame_start_size c b (ground (arith, e))) (omega arith) h)
      (λ e. IsDecoding-fragment c b' s h)
