-- ===== src/VideoQueue/Accept.antt =====
-- `queuePacket` keeps the invariant of the video queue, for received and for recovered packets.
use tesla_moonlight_ubuntu.Base.{
  ℕ, ◌+◌, ◌/◌, ◌<◌, ◌≡◌, sym, ap, inl, inr, Bool, true, false, ◌&&◌, ◌==◌, none, some, List, [],
  ◌∷◌, length-append, arith, if◌then◌else◌, Bool-cases, Option-cases,
}
use mathlib.Core.Path.{subst}
use tesla_moonlight_ubuntu.Seq.{u16, diff16}
use tesla_moonlight_ubuntu.VideoQueue.Types.{RtpPacket, Entry, seq_of, VideoQueue}
use tesla_moonlight_ubuntu.VideoQueue.Pending.{
  insert_entry_into_list, check_duplicates, choose_path, note_order, new_entry, append_entry,
  queue_packet,
}
use tesla_moonlight_ubuntu.VideoQueue.Window.{has_seq, InBlock}
use tesla_moonlight_ubuntu.VideoQueue.Valid.{
  IsValid, IsValidBlock, Block, block_of, total_of, All-snoc, Distinct-snoc, check_duplicates-none,
  has_seq-below, All-weaken,
}

module _ (q : VideoQueue) (v : IsValid q) where
  append_entry-IsValid :
      (e : Entry)
      → InBlock q.buffer_lowest_sequence_number q.buffer_data_packets (total_of q) e
      → has_seq (seq_of e) q.pending_fec_block_list.entries ≡ false
      → (q.use_fast_queue_path ≡ true
          → diff16 (seq_of e) q.buffer_lowest_sequence_number
            < diff16 q.next_contiguous_sequence_number q.buffer_lowest_sequence_number)
      → IsValid (append_entry q e)
  unfolding insert_entry_into_list
  append_entry-IsValid e b out fast =
      let es = q.pending_fec_block_list.entries in
      record {
        base_word = v.base_word;
        few_data = v.few_data;
        few_parity = v.few_parity;
        first_parity = v.first_parity;
        highest = v.highest;
        highest_word = v.highest_word;
        members = All-snoc _ es e v.members b;
        distinct = Distinct-snoc es e v.distinct out;
        count = omega (arith, v.count, length-append es (e ∷ []));
        next_word = v.next_word;
        next_inside = v.next_inside;
        fast = λ f. All-snoc _ es e (v.fast f) (fast f);
      }

  -- The record of out of order packets is no part of the block.
  note_order-IsValid : (t : ℕ) (o : Bool) → IsValid (note_order q t o)
  unfolding note_order
  note_order-IsValid t o =
      let same : block_of q ≡ block_of (note_order q t o) = ground arith in
      subst IsValidBlock same v

abbrev noted : VideoQueue → RtpPacket → Bool → Bool → VideoQueue
noted q p recovery o = if recovery then q else note_order q (p.timestamp / 90) o

noted-block : (q : VideoQueue) (p : RtpPacket) (r o : Bool) → block_of q ≡ block_of (noted q p r o)
unfolding note_order
noted-block q p r o = ground arith

abbrev pub EntryIn : VideoQueue → RtpPacket → ℕ → Bool → Type 0
EntryIn q p len parity =
    InBlock q.buffer_lowest_sequence_number q.buffer_data_packets (total_of q)
      (new_entry p len parity)

-- The entry goes in behind the others of the queue `r`, whose block is valid.
append_noted-IsValid :
    (r : VideoQueue) (p : RtpPacket) (len : ℕ) (parity recovery o : Bool)
    → IsValid r
    → EntryIn r p len parity
    → has_seq p.sequence_number r.pending_fec_block_list.entries ≡ false
    → (r.use_fast_queue_path ≡ true
        → diff16 p.sequence_number r.buffer_lowest_sequence_number
          < diff16 r.next_contiguous_sequence_number r.buffer_lowest_sequence_number)
    → IsValid (append_entry (noted r p recovery o) (new_entry p len parity))
append_noted-IsValid r p len parity recovery o v b out fast =
    let same = noted-block r p recovery o in
    let e = new_entry p len parity in
    let whole : block_of (append_entry r e) ≡ block_of (append_entry (noted r p recovery o) e) =
      ap (λ (k : Block). record k { pending = insert_entry_into_list k.pending e }) same in
    subst IsValidBlock whole (append_entry-IsValid r v e b out fast)

module _ (q : VideoQueue) (p : RtpPacket) (len : ℕ) (parity recovery : Bool) where
  abbrev number : ℕ
  number = p.sequence_number

  abbrev es : List Entry
  es = q.pending_fec_block_list.entries

  abbrev is_fast : Bool
  is_fast = q.use_fast_queue_path && (number == q.next_contiguous_sequence_number)

  -- the queue after the fast path and after the slow path
  abbrev fast_queue : VideoQueue
  fast_queue = record q { next_contiguous_sequence_number = u16 (number + 1) }

  abbrev slow_queue : VideoQueue
  slow_queue = record q { use_fast_queue_path = false }

  pub queue_packet-fast :
      is_fast ≡ true
      → queue_packet q p len parity recovery
        ≡ (true, append_entry (noted fast_queue p recovery false) (new_entry p len parity))
  unfolding queue_packet choose_path
  queue_packet-fast h = ground arith

  pub queue_packet-duplicate :
      is_fast ≡ false
      → check_duplicates number false es ≡ none
      → queue_packet q p len parity recovery ≡ (false, q)
  unfolding queue_packet choose_path
  queue_packet-duplicate h d = ground arith

  pub queue_packet-slow :
      (o : Bool)
      → is_fast ≡ false
      → check_duplicates number false es ≡ some o
      → queue_packet q p len parity recovery
        ≡ (true, append_entry (noted slow_queue p recovery o) (new_entry p len parity))
  unfolding queue_packet choose_path
  queue_packet-slow o h d = ground arith

  fast_queue-IsValid : IsValid q → EntryIn q p len parity → is_fast ≡ true → IsValid fast_queue
  fast_queue-IsValid v b h = record {
    base_word = v.base_word;
    few_data = v.few_data;
    few_parity = v.few_parity;
    first_parity = v.first_parity;
    highest = v.highest;
    highest_word = v.highest_word;
    members = v.members;
    distinct = v.distinct;
    count = v.count;
    next_word = omega arith;
    next_inside = ground arith;
    fast = λ f. All-weaken q.buffer_lowest_sequence_number _ _ es (ground arith) (v.fast f);
  }

  slow_queue-IsValid : IsValid q → IsValid slow_queue
  slow_queue-IsValid v = record {
    base_word = v.base_word;
    few_data = v.few_data;
    few_parity = v.few_parity;
    first_parity = v.first_parity;
    highest = v.highest;
    highest_word = v.highest_word;
    members = v.members;
    distinct = v.distinct;
    count = v.count;
    next_word = v.next_word;
    next_inside = v.next_inside;
    fast = λ f. absurd (ground arith);
  }

  -- `queuePacket` keeps the invariant, for any packet of the block.
  pub queue_packet-IsValid :
      IsValid q → EntryIn q p len parity → IsValid (queue_packet q p len parity recovery).1
  queue_packet-IsValid v b = elim (Bool-cases is_fast) [
    | inl h ↦
        let out : has_seq number es ≡ false =
          has_seq-below q.buffer_lowest_sequence_number
            (diff16 q.next_contiguous_sequence_number q.buffer_lowest_sequence_number) number es
            (v.fast (ground arith)) (ground arith) in
        subst (λ r. IsValid r.1) (sym (queue_packet-fast h))
          (append_noted-IsValid fast_queue p len parity recovery false (fast_queue-IsValid v b h) b
            out (λ f. ground arith))
    | inr h ↦ elim (Option-cases (check_duplicates number false es)) [
      | inl d ↦ subst (λ r. IsValid r.1) (sym (queue_packet-duplicate h d)) v
      | inr (o, new) ↦
          let out : has_seq number es ≡ false =
            ground (arith, check_duplicates-none number false es) in
          subst (λ r. IsValid r.1) (sym (queue_packet-slow o h new))
            (append_noted-IsValid slow_queue p len parity recovery o (slow_queue-IsValid v) b out
              (λ f. absurd (ground arith)))
    ]
  ]
