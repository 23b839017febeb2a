-- ===== src/VideoQueue/Complete.antt =====
-- What `stageCompleteFecBlock` makes of a block whose data packets are all there.
use tesla_moonlight_ubuntu.Base.{
  ℕ, zero, suc, ◌+◌, ◌*◌, ◌%◌, ◌^◌, ◌<◌, ◌≤◌, ◌≡◌, refl, ap, ◌∙◌, ◌⊎◌, inl, inr, List, [], ◌∷◌,
  ◌++◌, length, arith, map, All,
}
use mathlib.Core.Path.{subst, ap₂}
use tesla_moonlight_ubuntu.VideoQueue.Types.{Entry, seq_of, QueueList, VideoQueue}
use tesla_moonlight_ubuntu.VideoQueue.Pending.{empty_list}
use tesla_moonlight_ubuntu.VideoQueue.Stage.{stage_complete_fec_block, stage_loop}
use tesla_moonlight_ubuntu.VideoQueue.Window.{Distinct, data_count, InBlock, AtLeast}
use tesla_moonlight_ubuntu.VideoQueue.Order.{Staged, nil, cons, Done}
use tesla_moonlight_ubuntu.VideoQueue.Deliver.{stage_loop-Done}

-- `k` sequence numbers in a row, going round at 2^16
abbrev pub numbers_from : ℕ → ℕ → List ℕ
numbers_from s zero = []
numbers_from s (suc k) = (s % 2 ^ 16) ∷ numbers_from (s + 1) k

abbrev pub IsIn : Entry → List Entry → Type 0
IsIn e [] = ⊥
IsIn e (x ∷ xs) = (e ≡ x) ⊎ IsIn e xs

-- `e` is one of the entries, with the receive time set.
pub data IsStamped (time : ℕ) (es : List Entry) (e : Entry) : Type 0 where
  stamped : (x : Entry) → IsIn x es → e ≡ record x { receive_time_ms = time } → IsStamped time es e

All-IsIn :
    (base data_total total : ℕ) (es xs : List Entry)
    → ((e : Entry) → IsIn e xs → IsIn e es)
    → All (InBlock base data_total total) xs
    → All (λ e. InBlock base data_total total e × IsIn e es) xs
All-IsIn base data_total total es [] sub h = tt
All-IsIn base data_total total es (x ∷ xs) sub h =
    ((h.0, sub x (inl refl)), All-IsIn base data_total total es xs (λ e m. sub e (inr m)) h.1)

pub AtLeast-zero : (base : ℕ) (es : List Entry) → AtLeast base 0 es
AtLeast-zero base [] = tt
AtLeast-zero base (e ∷ es) = ((λ d. omega arith), AtLeast-zero base es)

module _ (base data_total total : ℕ) (pending : List Entry) (base_word : base < 2 ^ 16)
    (small : total < 2 ^ 15) (time : ℕ) where
  abbrev Good : Entry → Type 0
  Good e = InBlock base data_total total e × IsIn e pending

  abbrev InOrder : ℕ → List Entry → Type 0
  InOrder = Staged base data_total total Good base_word small (λ e g. g.0) time

  InOrder-length :
      (n : ℕ) {es : List Entry} → InOrder n es → n ≤ data_total → n + length es ≤ data_total
  InOrder-length n nil h = omega arith
  InOrder-length n (cons e d le at p k s) h =
      let b = p.0 in
      let lt : d < data_total = ground arith in omega (arith, InOrder-length (suc d) s lt)

  -- As many data packets as there are places leave no gap.
  InOrder-numbers :
      (n : ℕ) {es : List Entry}
      → InOrder n es
      → n + length es ≡ data_total
      → map seq_of es ≡ numbers_from (base + n) (length es)
  InOrder-numbers n nil h = refl
  InOrder-numbers n (cons {es} e d le at p k s) h =
      let b = p.0 in
      let lt : d < data_total = ground arith in
      let same : d ≡ n = omega (arith, InOrder-length (suc d) s lt) in
      let first : seq_of e ≡ (base + n) % 2 ^ 16 = omega arith in
      let ih = InOrder-numbers (suc d) s (omega arith) in
      let next : base + suc d ≡ base + n + 1 = omega arith in
      let ih' : map seq_of es ≡ numbers_from (base + n + 1) (length es) =
        ih ∙ ap (λ x. numbers_from x (length es)) next in
      cc

  InOrder-IsStamped : (n : ℕ) {es : List Entry} → InOrder n es → All (IsStamped time pending) es
  InOrder-IsStamped n nil = tt
  InOrder-IsStamped n (cons e d le at p k s) = (stamped e p.1 refl, InOrder-IsStamped (suc d) s)

-- The pending list holds a whole block: every packet belongs to the block, none is there twice, and
-- as many data packets are there as the block has; the counts are right.
pub record IsWhole (q : VideoQueue) (total : ℕ) : Type 0 where
  pub base_word : q.buffer_lowest_sequence_number < 2 ^ 16
  pub small : total < 2 ^ 15
  pub members :
      All
        (InBlock q.buffer_lowest_sequence_number q.buffer_data_packets total)
        q.pending_fec_block_list.entries
  pub distinct : Distinct q.pending_fec_block_list.entries
  pub every : data_count q.pending_fec_block_list.entries ≡ q.buffer_data_packets
  pub count : q.pending_fec_block_list.count ≡ length q.pending_fec_block_list.entries
  pub few : length q.pending_fec_block_list.entries < 2 ^ 31

-- What staging leaves.
pub record IsDelivered (q r : VideoQueue) : Type 0 where
  pub staged : List Entry
  pub nothing_pending : r.pending_fec_block_list ≡ empty_list
  pub appended : r.completed_fec_block_list.entries ≡ q.completed_fec_block_list.entries ++ staged
  pub counted :
      r.completed_fec_block_list.count % 2 ^ 32
      ≡ (q.completed_fec_block_list.count + q.buffer_data_packets) % 2 ^ 32
  pub in_order :
      map seq_of staged ≡ numbers_from q.buffer_lowest_sequence_number q.buffer_data_packets
  pub from_pending :
      All (IsStamped q.buffer_first_recv_time_ms q.pending_fec_block_list.entries) staged

IsDelivered-Done :
    (q : VideoQueue) (total : ℕ) (w : IsWhole q total) (out : QueueList × QueueList)
    → Done q.buffer_lowest_sequence_number q.buffer_data_packets total
        (Good q.buffer_lowest_sequence_number q.buffer_data_packets total
          q.pending_fec_block_list.entries w.base_word w.small q.buffer_first_recv_time_ms)
        w.base_word
        w.small
        (λ e g. g.0)
        q.buffer_first_recv_time_ms
        0
        q.pending_fec_block_list.entries
        q.completed_fec_block_list
        out
    → IsDelivered q (record q { pending_fec_block_list = out.0; completed_fec_block_list = out.1 })
IsDelivered-Done q total w out d =
    let base = q.buffer_lowest_sequence_number in
    let many : length d.staged ≡ q.buffer_data_packets = omega (arith, d.how_many, w.every) in
    let from_zero : base + 0 ≡ base = omega arith in
    let numbers =
      InOrder-numbers base q.buffer_data_packets total q.pending_fec_block_list.entries w.base_word
        w.small q.buffer_first_recv_time_ms 0 d.is_staged (omega (arith, many)) in
    record {
      staged = d.staged;
      nothing_pending = d.emptied;
      appended = d.appended;
      counted = omega (arith, d.new_count, many);
      in_order =
          numbers
          ∙ ap (λ s. numbers_from s (length d.staged)) from_zero
          ∙ ap (numbers_from base) many;
      from_pending =
          InOrder-IsStamped base q.buffer_data_packets total q.pending_fec_block_list.entries
            w.base_word w.small q.buffer_first_recv_time_ms 0 d.is_staged;
    }

-- On a whole block `stageCompleteFecBlock` ends with the pending list empty, and has put behind
-- the completed list exactly the packets with the sequence numbers from the block's lowest on, one
-- for each data packet of the block, in this order and going round at 2^16. Each is an entry that
-- was pending, with the receive time of the block's first packet.
pub stage_complete_fec_block_lem :
    (q : VideoQueue) (total : ℕ) → IsWhole q total → IsDelivered q (stage_complete_fec_block q)
unfolding stage_complete_fec_block
stage_complete_fec_block_lem q total w =
    let base = q.buffer_lowest_sequence_number in
    let time = q.buffer_first_recv_time_ms in
    let pending = q.pending_fec_block_list in
    let es = pending.entries in
    let completed = q.completed_fec_block_list in
    let fuel = 2 * pending.count + 2 in
    let loop =
      stage_loop-Done base q.buffer_data_packets total
        (Good base q.buffer_data_packets total es w.base_word w.small time) w.base_word w.small
        (λ e g. g.0) time fuel 0 es completed (omega arith) w.few
        (All-IsIn base q.buffer_data_packets total es es (λ e m. m) w.members) w.distinct
        (AtLeast-zero base es) (inl (omega (arith, w.count))) in
    let start : (base + 0) % 2 ^ 16 ≡ base = omega (arith, w.base_word) in
    let list : ◌≡◌ {A = QueueList} (record { entries = es; count = length es }) pending =
      ground (arith, w.count) in
    let same : stage_loop fuel time ((base + 0) % 2 ^ 16)
          (record { entries = es; count = length es }) completed
        ≡ stage_loop fuel time base pending completed =
      ap₂ (λ s l. stage_loop fuel time s l completed) start list in
    IsDelivered-Done q total w (stage_loop fuel time base pending completed) (
      subst
        (Done base q.buffer_data_packets total
          (Good base q.buffer_data_packets total es w.base_word w.small time) w.base_word w.small
          (λ e g. g.0) time 0 es completed)
        same loop)
