-- ===== src/VideoQueue/Deliver.antt =====
-- The loop of `stageCompleteFecBlock`, and what the function does with a complete block.
use tesla_moonlight_ubuntu.Base.{
  ℕ, zero, suc, ◌+◌, ◌*◌, ◌%◌, ◌^◌, ◌<◌, ◌≤◌, ◌≡◌, refl, sym, inl, inr, none, some, List, [], ◌∷◌,
  append-nil, length, arith, All,
}
use mathlib.Core.Path.{subst}
use tesla_moonlight_ubuntu.Seq.{u16, diff16}
use tesla_moonlight_ubuntu.VideoQueue.Types.{Entry, seq_of, QueueList}
use tesla_moonlight_ubuntu.VideoQueue.Pending.{insert_entry_into_list}
use tesla_moonlight_ubuntu.VideoQueue.Stage.{Pass, find_next, stage_loop}
use tesla_moonlight_ubuntu.VideoQueue.Window.{Distinct, InBlock, AtLeast}
use tesla_moonlight_ubuntu.VideoQueue.Scan.{Hit, Miss, Result, find_next_lem}
use tesla_moonlight_ubuntu.VideoQueue.Order.{
  Done, Done-hit, Done-miss, Staged-empty, Enough, fuel_left,
}

module _ (base data_total total : ℕ) (P : Entry → Type 0) (base_word : base < 2 ^ 16)
    (small : total < 2 ^ 15) (in_block : (e : Entry) → P e → InBlock base data_total total e)
    (time : ℕ) where
  abbrev Finished : ℕ → List Entry → QueueList → QueueList × QueueList → Type 0
  Finished = Done base data_total total P base_word small in_block time

  -- The loop from distance `n` on.
  abbrev run : ℕ → ℕ → List Entry → QueueList → QueueList × QueueList
  run fuel n es completed =
      stage_loop fuel time ((base + n) % 2 ^ 16) (record { entries = es; count = length es })
        completed

  list_eta :
      (l : QueueList)
      → l.count ≡ length l.entries
      → l ≡ record { entries = l.entries; count = length l.entries }
  list_eta l h = ground arith

  -- The pass that begins at the packet `e`.
  abbrev pass_at : ℕ → Entry → List Entry → Pass
  pass_at n e es = find_next ((base + n) % 2 ^ 16) (seq_of e) (0 + length (e ∷ es)) (e ∷ es)

  after_hit :
      (fuel n : ℕ) (e x : Entry) (es : List Entry) (completed : QueueList)
      → (pass_at n e es).found ≡ some x
      → (pass_at n e es).kept.count ≡ length (pass_at n e es).kept.entries
      → run (suc fuel) n (e ∷ es) completed
        ≡ run fuel
            (suc n)
            (pass_at n e es).kept.entries
            (insert_entry_into_list completed (record x { receive_time_ms = time }))
  unfolding stage_loop
  after_hit fuel n e x es completed f c =
      let here : 0 + length (e ∷ es) ≡ length (e ∷ es) = omega arith in
      let next : u16 ((base + n) % 2 ^ 16 + 1) ≡ (base + suc n) % 2 ^ 16 = omega arith in
      ground (arith, list_eta (pass_at n e es).kept c)

  after_miss :
      (fuel n : ℕ) (e : Entry) (es : List Entry) (completed : QueueList)
      → (pass_at n e es).found ≡ none
      → (pass_at n e es).kept.count ≡ length (pass_at n e es).kept.entries
      → (pass_at n e es).lowest < 2 ^ 16
      → run (suc fuel) n (e ∷ es) completed
        ≡ run fuel (diff16 (pass_at n e es).lowest base) (pass_at n e es).kept.entries completed
  unfolding stage_loop
  after_miss fuel n e es completed f c lw =
      let here : 0 + length (e ∷ es) ≡ length (e ∷ es) = omega arith in
      let back : (base + diff16 (pass_at n e es).lowest base) % 2 ^ 16 ≡ (pass_at n e es).lowest =
        omega arith in
      ground (arith, list_eta (pass_at n e es).kept c)

  -- What the loop does from any state on with so much fuel.
  abbrev LoopDone : ℕ → Type 0
  LoopDone fuel =
      (n : ℕ) (es : List Entry) (completed : QueueList)
      → n ≤ total
      → length es < 2 ^ 31
      → All P es
      → Distinct es
      → AtLeast base n es
      → Enough base data_total total P base_word small in_block time fuel n es
      → Finished n es completed (run fuel n es completed)

  module _ (fuel n : ℕ) (e : Entry) (es : List Entry) (completed : QueueList)
      (later : LoopDone fuel) (hl : length (e ∷ es) < 2 ^ 31)
      (enough : Enough base data_total total P base_word small in_block time
        (suc fuel)
        n
        (e ∷ es)) where
    step_found :
        Hit base data_total total P base_word small in_block 0 n (e ∷ es) (pass_at n e es)
        → Finished n (e ∷ es) completed (run (suc fuel) n (e ∷ es) completed)
    unfolding insert_entry_into_list
    step_found h =
        let x = h.e in
        let kept = (pass_at n e es).kept.entries in
        let more = insert_entry_into_list completed (record x { receive_time_ms = time }) in
        let b = in_block x h.holds in
        let same = after_hit fuel n e x es completed h.is_found (omega (arith, h.left.count)) in
        let above : AtLeast base (suc n) kept =
          subst (λ k. AtLeast base k kept) (omega arith) h.left.above in
        subst (Finished n (e ∷ es) completed) (sym same) (
          Done-hit base data_total total P base_word small in_block time n x (e ∷ es) kept completed
            (run fuel (suc n) kept more) h.at_n h.holds h.is_data h.fewer_data
            (later (suc n) kept more (omega (arith, b.inside, h.at_n)) (omega (arith, h.shorter))
              h.left.all h.left.distinct above (inl (fuel_left enough))))
      where
        fuel_left :
            Enough base data_total total P base_word small in_block time (suc fuel) n (e ∷ es)
            → 2 * length (pass_at n e es).kept.entries + 1 < fuel
        fuel_left (inl f) = omega (arith, h.shorter)
        fuel_left (inr f) = omega (arith, h.shorter, f.0)

    step_skipped :
        P e
        → Miss base data_total total P base_word small in_block 0 n
            (seq_of e)
            (e ∷ es)
            (pass_at n e es)
        → Finished n (e ∷ es) completed (run (suc fuel) n (e ∷ es) completed)
    step_skipped p m =
        let pass = pass_at n e es in
        let kept = pass.kept.entries in
        let m' = diff16 pass.lowest base in
        let same =
          after_miss fuel n e es completed m.not_found (omega (arith, m.left.count)) m.low_word in
        let (fuel_left, why) =
          fuel_left base data_total total P base_word small in_block time fuel n e es pass enough p
            m in
        subst (Finished n (e ∷ es) completed) (sym same) (
          Done-miss base data_total total P base_word small in_block time n m' (e ∷ es) kept
            completed (run fuel m' kept completed) why m.same_data
            (later m' kept completed (omega (arith, m.low_inside)) (omega (arith, m.no_longer))
              m.left.all m.left.distinct m.low_least fuel_left))

  -- The loop ends with nothing pending, and hands over every data packet in order.
  pub stage_loop-Done : (fuel : ℕ) → LoopDone fuel
  unfolding stage_loop
  stage_loop-Done zero n es completed hn hl all dis least enough = absurd (ground arith)
  stage_loop-Done (suc fuel) n [] completed hn hl all dis least enough = record {
    staged = [];
    is_staged = Staged-empty base data_total total P base_word small in_block time n [] refl;
    how_many = refl;
    emptied = refl;
    appended = sym (append-nil completed.entries);
    new_count = omega arith;
  }
  stage_loop-Done (suc fuel) n (e ∷ es) completed hn hl all dis least enough =
      let b = in_block e all.0 in
      split
        (find_next_lem base data_total total P base_word small in_block 0 n (seq_of e) (e ∷ es) hn
          (omega arith) b.word b.inside all dis least)
        (stage_loop-Done fuel)
    where
      split :
          Result base data_total total P base_word small in_block 0 n
            (seq_of e)
            (e ∷ es)
            (pass_at n e es)
          → LoopDone fuel
          → Finished n (e ∷ es) completed (run (suc fuel) n (e ∷ es) completed)
      split (inl h) later = step_found fuel n e es completed later hl enough h
      split (inr m) later = step_skipped fuel n e es completed later hl enough all.0 m
