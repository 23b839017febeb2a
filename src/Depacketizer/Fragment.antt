-- ===== src/Depacketizer/Fragment.antt =====
-- Appending the data of a packet to the chain: as one entry, or by the slow path, which cuts the
-- first packet of an IDR frame into its parameter sets and the picture data.
pub mod Slow
use tesla_moonlight_ubuntu.Base.{
  ℕ, zero, suc, ◌+◌, ◌-◌, Bool, true, false, ◌||◌, Option, none, some, List, [], ◌∷◌, ◌++◌, ◌==◌,
  take, drop, if◌then◌else◌,
}
use tesla_moonlight_ubuntu.Depacketizer.Types.{
  Host, BufferType, picdata, sps, pps, vps, idr, Lentry, Depacketizer, is_h264, is_h265,
}
use tesla_moonlight_ubuntu.Depacketizer.Nal.{
  BufferDesc, byte_at, get_annex_b_start_sequence, at_start_sequence, h264_nal_type, hevc_nal_type,
  is_seq_reference_frame_start, is_access_unit_delimiter, is_sei_nal, skip_to_next_nal,
  skip_to_next_nal_or_end, skip_while, not_empty,
}

abbrev pub h264_buffer_type : ℕ → BufferType
h264_buffer_type t = if t == 7 then sps else if t == 8 then pps else picdata

abbrev pub hevc_buffer_type : ℕ → BufferType
hevc_buffer_type t =
    if t == 33 then sps else if t == 34 then pps else if t == 32 then vps else picdata

-- `getBufferFlags`
unfoldable pub get_buffer_flags : Host → BufferDesc → BufferType
get_buffer_flags c b = elim (is_h264 c || is_h265 c) [
  | false ↦ picdata
  | true ↦ elim (get_annex_b_start_sequence b) [
    | none ↦ picdata
    | some n ↦
        if is_h264 c
        then h264_buffer_type (h264_nal_type (byte_at b n))
        else hevc_buffer_type (hevc_nal_type (byte_at b n))
  ]
]

-- The bytes under a cursor
abbrev pub window : BufferDesc → List ℕ
window b = take b.size (drop b.offset b.bytes)

abbrev pub append_entry : Depacketizer → ℕ → Lentry → Depacketizer
append_entry s n e = record s {
  nal_chain = s.nal_chain ++ (e ∷ []);
  nal_chain_data_length = s.nal_chain_data_length + n;
}

-- `queueFragment` of the bytes under a cursor
unfoldable pub queue_fragment : Host → BufferDesc → Depacketizer → Depacketizer
unfolding get_buffer_flags
queue_fragment c b s =
    append_entry s b.size (record { buffer = window b; buffer_type = get_buffer_flags c b })

-- What the slow path does at a reference frame's start
abbrev pub start_idr_frame : Depacketizer → Depacketizer
start_idr_frame s = record s {
  waiting_for_idr_frame = false;
  waiting_for_ref_inval_frame = false;
  waiting_for_next_successful_frame = false;
  frame_type = idr;
}

-- The first lines of the slow path's loop: the cursor behind padding, AUD and SEI units
unfoldable pub skip_prefix : Host → BufferDesc → BufferDesc
skip_prefix c b =
    let b' = if at_start_sequence b then b else skip_to_next_nal b in
    skip_while b'.size (λ x. is_access_unit_delimiter c x || is_sei_nal c x) b'

-- The next lines: the cursor behind the NAL unit, or behind all data if it is picture data
unfoldable pub skip_unit : Bool → BufferDesc → BufferDesc
skip_unit contains_pic_data b =
    let b' = skip_to_next_nal_or_end b in
    if contains_pic_data then skip_while b'.size not_empty b' else b'

-- The bytes from one cursor to a later one
abbrev pub between : BufferDesc → BufferDesc → BufferDesc
between from to = record from { size = to.offset - from.offset }

-- One round of the slow path's loop
unfoldable pub slow_step : Host → BufferDesc → Depacketizer → BufferDesc × Depacketizer
unfolding skip_prefix skip_unit queue_fragment
slow_step c b s =
    let start = skip_prefix c b in
    let contains_pic_data = is_seq_reference_frame_start c start in
    let stop = skip_unit contains_pic_data start in
    (
      stop,
      queue_fragment c (between start stop) (if contains_pic_data then start_idr_frame s else s),
    )

-- `processAvcHevcRtpPayloadSlow`, on fuel
unfoldable pub process_payload_slow :
    Host → ℕ → BufferDesc → Depacketizer → BufferDesc × Depacketizer
unfolding slow_step
process_payload_slow c zero b s = (b, s)
process_payload_slow c (suc f) b s = elim (not_empty b) [
  | false ↦ (b, s)
  | true ↦ let next = slow_step c b s in process_payload_slow c f next.0 next.1
]
