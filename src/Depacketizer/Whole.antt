-- ===== src/Depacketizer/Whole.antt =====
-- The bytes of a frame: what the packets behind its first one add to the decode unit.
use tesla_moonlight_ubuntu.Base.{
  ℕ, suc, ◌+◌, ◌%◌, ◌^◌, ◌≡◌, ◌≢◌, refl, sym, ◌∙◌, ap, true, false, List, [], ◌∷◌, ◌++◌,
  append_assoc, append-nil, arith,
}
use tesla_moonlight_ubuntu.Seq.{is_before24, is_before32}
use tesla_moonlight_ubuntu.VideoQueue.Types.{NvVideoPacket, Entry, current_block}
use tesla_moonlight_ubuntu.Depacketizer.Types.{Host, Lentry, Depacketizer}
use tesla_moonlight_ubuntu.Depacketizer.Nal.{BufferDesc}
use tesla_moonlight_ubuntu.Depacketizer.Fragment.{window, queue_fragment}
use tesla_moonlight_ubuntu.Depacketizer.Header.{is_parsed}
use tesla_moonlight_ubuntu.Depacketizer.Process.{
  has_sof, is_first_packet, is_last_packet, index_of, is_corrupt, append_parsed, append_payload,
  payload_of, take_in, process_rtp_payload, queue_rtp_packet,
}
use tesla_moonlight_ubuntu.Depacketizer.Reach.{payload_length}

-- The bytes of a chain, and those that a packet carries
abbrev pub bytes_of : List Lentry → List ℕ
bytes_of [] = []
bytes_of (e ∷ es) = e.buffer ++ bytes_of es

abbrev pub data_of : Entry → List ℕ
data_of e = window (payload_of e.packet.nv (payload_length e))

pub bytes_of-snoc :
    (xs : List Lentry) (e : Lentry) → bytes_of (xs ++ (e ∷ [])) ≡ bytes_of xs ++ e.buffer
bytes_of-snoc [] e = append-nil e.buffer
bytes_of-snoc (x ∷ xs) e =
    rw (bytes_of-snoc xs e) (sym (append_assoc x.buffer (bytes_of xs) e.buffer))

-- A packet behind the first one of frame `f`, the `n`-th of the stream
pub record Continues (f n : ℕ) (p : NvVideoPacket) : Type 0 where
  pub frame : p.frame_index ≡ f
  pub index : index_of p ≡ n % 2 ^ 24
  pub no_start : has_sof p.flags ≡ false

-- A frame is being received, nothing is awaited and no drop is pending.
pub record IsReceiving (f n : ℕ) (s : Depacketizer) : Type 0 where
  pub frame : s.next_frame_number ≡ f
  pub index : (s.last_packet_in_stream + 1) % 2 ^ 24 ≡ n % 2 ^ 24
  pub no_idr_wait : s.waiting_for_idr_frame ≡ false
  pub no_ref_inval_wait : s.waiting_for_ref_inval_frame ≡ false
  pub no_drop : s.drop_state_pending ≡ false
  pub begun : s.nal_chain ≢ []

-- A packet that continues the frame passes the guards.
pub accepted :
    (f n : ℕ) (p : NvVideoPacket) (s : Depacketizer)
    → Continues f n p
    → IsReceiving f n s
    → (is_before32 p.frame_index s.next_frame_number ≡ false)
      × (is_corrupt p s ≡ false)
      × (is_first_packet p.flags (current_block p) ≡ false)
unfolding is_before32 is_corrupt is_before24 is_first_packet
accepted f n p s k h =
    let a = k.frame in
    let b = k.index in
    let c = k.no_start in
    let d = h.frame in let e = h.index in (ground arith, ground arith, ground arith)

-- Such a packet is appended to the chain.
appended :
    (c : Host) (f n : ℕ) (e : Entry) (s : Depacketizer)
    → is_parsed c ≡ true
    → Continues f n e.packet.nv
    → IsReceiving f n s
    → is_last_packet e.packet.nv ≡ false
    → queue_rtp_packet c e s
      ≡ queue_fragment c
          (payload_of e.packet.nv (payload_length e))
          (record s { last_packet_in_stream = index_of e.packet.nv })
unfolding queue_rtp_packet process_rtp_payload take_in append_payload append_parsed
appended c f n e s parsed k h mid =
    let a = accepted f n e.packet.nv s k h in
    rw (a.0, a.1, a.2, parsed, mid, process_rtp_payload, take_in, append_payload, append_parsed)
      refl

pub snoc-cons : (xs : List Lentry) (x : Lentry) → xs ++ (x ∷ []) ≢ []
snoc-cons [] x e = absurd cc
snoc-cons (y ∷ ys) x e = absurd cc

receiving_on :
    (c : Host) (f n : ℕ) (p : NvVideoPacket) (b : BufferDesc) (s : Depacketizer)
    → Continues f n p
    → IsReceiving f n s
    → IsReceiving f (suc n) (queue_fragment c b (record s { last_packet_in_stream = index_of p }))
unfolding queue_fragment
receiving_on c f n p b s k h =
    let i = k.index in
    record {
      frame = h.frame;
      index = omega arith;
      no_idr_wait = h.no_idr_wait;
      no_ref_inval_wait = h.no_ref_inval_wait;
      no_drop = h.no_drop;
      begun = snoc-cons s.nal_chain _;
    }

abbrev pub feed : Host → List Entry → Depacketizer → Depacketizer
feed c [] s = s
feed c (e ∷ es) s = feed c es (queue_rtp_packet c e s)

abbrev pub data_of_all : List Entry → List ℕ
data_of_all [] = []
data_of_all (e ∷ es) = data_of e ++ data_of_all es

-- Packets of the middle of frame `f`, in the order of the stream from the `n`-th on
abbrev pub Middles : ℕ → ℕ → List Entry → Type 0
Middles f n [] = Unit
Middles f n (e ∷ es) =
    Continues f n e.packet.nv × (is_last_packet e.packet.nv ≡ false) × Middles f (suc n) es

abbrev pub after : ℕ → List Entry → ℕ
after n [] = n
after n (e ∷ es) = after (suc n) es

-- What the middle packets leave
pub record IsFed (f n : ℕ) (bytes : List ℕ) (s s' : Depacketizer) : Type 0 where
  pub receiving : IsReceiving f n s'
  pub collected : bytes_of s'.nal_chain ≡ bytes
  pub queue : s'.decode_unit_queue ≡ s.decode_unit_queue
  pub shutdown : s'.queue_shutdown ≡ s.queue_shutdown

middle :
    (c : Host) (f n : ℕ) (e : Entry) (s : Depacketizer)
    → is_parsed c ≡ true
    → Continues f n e.packet.nv
    → is_last_packet e.packet.nv ≡ false
    → IsReceiving f n s
    → IsFed f (suc n) (bytes_of s.nal_chain ++ data_of e) s (queue_rtp_packet c e s)
unfolding queue_fragment
middle c f n e s parsed k m h = rw (appended c f n e s parsed k h m) (record {
  receiving = receiving_on c f n e.packet.nv (payload_of e.packet.nv (payload_length e)) s k h;
  collected = bytes_of-snoc s.nal_chain _;
  queue = refl;
  shutdown = refl;
})

pub feed-IsFed :
    (c : Host) (f n : ℕ) (es : List Entry) (s : Depacketizer)
    → is_parsed c ≡ true
    → Middles f n es
    → IsReceiving f n s
    → IsFed f (after n es) (bytes_of s.nal_chain ++ data_of_all es) s (feed c es s)
feed-IsFed c f n [] s parsed ms h = record {
  receiving = h;
  collected = sym (append-nil (bytes_of s.nal_chain));
  queue = refl;
  shutdown = refl;
}
feed-IsFed c f n (e ∷ es) s parsed ms h =
    let m = middle c f n e s parsed ms.0 ms.1 h in
    let r = feed-IsFed c f (suc n) es (queue_rtp_packet c e s) parsed ms.2 m.receiving in
    let split = append_assoc (bytes_of s.nal_chain) (data_of e) (data_of_all es) in
    record {
      receiving = r.receiving;
      collected = r.collected ∙ ap (λ x. x ++ data_of_all es) m.collected ∙ split;
      queue = r.queue ∙ m.queue;
      shutdown = r.shutdown ∙ m.shutdown;
    }
