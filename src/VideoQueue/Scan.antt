-- ===== src/VideoQueue/Scan.antt =====
-- One pass of the inner loop of `stageCompleteFecBlock` over the pending packets of a block.
use tesla_moonlight_ubuntu.Base.{
  ℕ, ◌+◌, ◌%◌, ◌^◌, ◌<◌, ◌≤◌, ◌≡◌, refl, sym, ◌⊎◌, inl, inr, true, false, none, some, List, [], ◌∷◌,
  ◌==◌, length, Bool-cases, if◌then◌else◌, arith, All,
}
use mathlib.Core.Path.{subst}
use tesla_moonlight_ubuntu.Seq.{diff16, is_before16}
use tesla_moonlight_ubuntu.Seq.Window.{is_before16_window}
use tesla_moonlight_ubuntu.VideoQueue.Types.{Entry, seq_of, QueueList}
use tesla_moonlight_ubuntu.VideoQueue.Stage.{Pass, find_next, keep, dec}
use tesla_moonlight_ubuntu.VideoQueue.Window.{
  has_seq, Distinct, has_data, data_count, InBlock, AtLeast,
}

-- The block, and any predicate of its packets.
module _ (base data_total total : ℕ) (P : Entry → Type 0) (base_word : base < 2 ^ 16)
    (small : total < 2 ^ 15) (in_block : (e : Entry) → P e → InBlock base data_total total e) where
  -- What is left in the list, when every data packet up to distance `n` is gone; `k` packets
  -- stand before the part of the list that is looked at.
  pub record Left (k n : ℕ) (es : List Entry) (l : QueueList) : Type 0 where
    pub all : All P l.entries
    pub distinct : Distinct l.entries
    pub fewer : (s : ℕ) → has_seq s es ≡ false → has_seq s l.entries ≡ false
    pub above : AtLeast base (n + 1) l.entries
    pub count : l.count ≡ k + length l.entries

  -- The pass found the packet `e` at distance `n`.
  pub record Hit (k n : ℕ) (es : List Entry) (pass : Pass) : Type 0 where
    pub left : Left k n es pass.kept
    pub e : Entry
    pub is_found : pass.found ≡ some e
    pub holds : P e
    pub is_data : e.is_parity ≡ false
    pub at_n : diff16 (seq_of e) base ≡ n
    pub fewer_data : data_count es ≡ data_count pass.kept.entries + 1
    pub shorter : length pass.kept.entries + 1 ≤ length es

  -- There is no packet at distance `n`; the lowest number seen is that of a data packet, or the
  -- one that the pass began with.
  pub record Miss (k n lowest : ℕ) (es : List Entry) (pass : Pass) : Type 0 where
    pub left : Left k n es pass.kept
    pub not_found : pass.found ≡ none
    pub same_data : data_count es ≡ data_count pass.kept.entries
    pub all_data : data_count pass.kept.entries ≡ length pass.kept.entries
    pub no_longer : length pass.kept.entries ≤ length es
    pub stays : (s : ℕ) → has_data s es ≡ true → has_data s pass.kept.entries ≡ true
    pub absent : has_data ((base + n) % 2 ^ 16) es ≡ false
    pub low_word : pass.lowest < 2 ^ 16
    pub low_inside : diff16 pass.lowest base < total
    pub low_least : AtLeast base (diff16 pass.lowest base) pass.kept.entries
    pub low_le : diff16 pass.lowest base ≤ diff16 lowest base
    pub low_seen : (pass.lowest ≡ lowest) ⊎ (has_data pass.lowest pass.kept.entries ≡ true)

  -- Packets that are not at distance `n` lie further off.
  AtLeast-suc :
      (n : ℕ) (es : List Entry)
      → n ≤ total
      → All P es
      → AtLeast base n es
      → has_seq ((base + n) % 2 ^ 16) es ≡ false
      → AtLeast base (n + 1) es
  AtLeast-suc n [] hn all least out = tt
  AtLeast-suc n (e ∷ es) hn all least out =
      let b = in_block e all.0 in
      ((λ d. ground arith), AtLeast-suc n es hn all.1 least.1 (ground arith))

  abbrev pub Result : ℕ → ℕ → ℕ → List Entry → Pass → Type 0
  Result k n lowest es pass = Hit k n es pass ⊎ Miss k n lowest es pass

  module _ (k n lowest : ℕ) (e : Entry) (es : List Entry) where
    Left-cons : {l : QueueList} → Left k n es l → Left k n (e ∷ es) l
    Left-cons r = record {
      all = r.all;
      distinct = r.distinct;
      fewer = λ s h. r.fewer s (ground arith);
      above = r.above;
      count = r.count;
    }

    -- A parity packet is dropped.
    skip :
        (pass : Pass)
        → e.is_parity ≡ true
        → Result k n lowest es pass
        → Result k n lowest (e ∷ es) pass
    skip pass p (inl h) = inl (record {
      left = Left-cons h.left;
      e = h.e;
      is_found = h.is_found;
      holds = h.holds;
      is_data = h.is_data;
      at_n = h.at_n;
      fewer_data = ground (arith, h.fewer_data);
      shorter = omega (arith, h.shorter);
    })
    skip pass p (inr m) = inr (record {
      left = Left-cons m.left;
      not_found = m.not_found;
      same_data = ground (arith, m.same_data);
      all_data = m.all_data;
      no_longer = omega (arith, m.no_longer);
      stays = λ s h. m.stays s (ground arith);
      absent = ground (arith, m.absent);
      low_word = m.low_word;
      low_inside = m.low_inside;
      low_least = m.low_least;
      low_le = m.low_le;
      low_seen = m.low_seen;
    })

    abbrev lower : ℕ
    lower = if is_before16 (seq_of e) lowest then seq_of e else lowest

    -- The lowest number seen is that of the packet or the one before, whichever is nearer.
    lower_bounds :
        InBlock base data_total total e
        → lowest < 2 ^ 16
        → diff16 lowest base < total
        → (lower < 2 ^ 16)
          × (diff16 lower base ≤ diff16 (seq_of e) base)
          × (diff16 lower base ≤ diff16 lowest base)
          × (diff16 lower base < total)
          × ((lower ≡ seq_of e) ⊎ (lower ≡ lowest))
    lower_bounds b lw li =
        let w =
          is_before16_window base (seq_of e) lowest base_word b.word lw (omega arith)
            (omega arith) in
        ground arith

    Left-keep :
        {l : QueueList}
        → P e
        → (seq_of e == (base + n) % 2 ^ 16) ≡ false
        → n ≤ diff16 (seq_of e) base
        → n ≤ total
        → has_seq (seq_of e) es ≡ false
        → Left (k + 1) n es l
        → Left k n (e ∷ es) (record { entries = e ∷ l.entries; count = l.count })
    Left-keep p miss le hn out r =
        let b = in_block e p in
        record {
          all = (p, r.all);
          distinct = (r.fewer (seq_of e) out, r.distinct);
          fewer = λ s h. ground (arith, r.fewer s);
          above = ((λ d. ground arith), r.above);
          count = omega (arith, r.count);
        }

    -- A data packet that is not the next one stays.
    keep_step :
        (pass : Pass)
        → P e
        → e.is_parity ≡ false
        → (seq_of e == (base + n) % 2 ^ 16) ≡ false
        → n ≤ diff16 (seq_of e) base
        → n ≤ total
        → lowest < 2 ^ 16
        → diff16 lowest base < total
        → has_seq (seq_of e) es ≡ false
        → Result (k + 1) n lower es pass
        → Result k n lowest (e ∷ es) (keep e pass)
    keep_step pass p d miss le hn lw li out (inl h) = inl (record {
      left = Left-keep p miss le hn out h.left;
      e = h.e;
      is_found = h.is_found;
      holds = h.holds;
      is_data = h.is_data;
      at_n = h.at_n;
      fewer_data = ground (arith, h.fewer_data);
      shorter = omega (arith, h.shorter);
    })
    keep_step pass p d miss le hn lw li out (inr m) =
        let bounds = lower_bounds (in_block e p) lw li in
        inr (record {
          left = Left-keep p miss le hn out m.left;
          not_found = m.not_found;
          same_data = ground (arith, m.same_data);
          all_data = ground (arith, m.all_data);
          no_longer = omega (arith, m.no_longer);
          stays = λ s h. ground (arith, m.stays s);
          absent = ground (arith, m.absent);
          low_word = m.low_word;
          low_inside = m.low_inside;
          low_least = ((λ x. omega (arith, m.low_le, bounds.1)), m.low_least);
          low_le = omega (arith, m.low_le, bounds.2);
          low_seen = ground (arith, m.low_seen, bounds.4);
        })

  -- A pass from distance `n` on: it drops parity packets, and finds the packet at distance `n` or
  -- shows that there is none.
  pub find_next_lem :
      (k n lowest : ℕ) (es : List Entry)
      → n ≤ total
      → k + length es < 2 ^ 31
      → lowest < 2 ^ 16
      → diff16 lowest base < total
      → All P es
      → Distinct es
      → AtLeast base n es
      → Result k n lowest es (find_next ((base + n) % 2 ^ 16) lowest (k + length es) es)
  unfolding find_next
  find_next_lem k n lowest [] hn hk lw li all dis least = inr (record {
    left = record { all = tt; distinct = tt; fewer = λ s h. refl; above = tt; count = refl };
    not_found = refl;
    same_data = refl;
    all_data = refl;
    no_longer = omega arith;
    stays = λ s h. h;
    absent = refl;
    low_word = lw;
    low_inside = li;
    low_least = tt;
    low_le = omega arith;
    low_seen = inl refl;
  })
  find_next_lem k n lowest (e ∷ es) hn hk lw li all dis least = elim (Bool-cases e.is_parity) [
    | inl p ↦
        let eq : whole ≡ find_next next lowest (k + length es) es = ground arith in
        subst (Result k n lowest (e ∷ es)) (sym eq) (
          skip k n lowest e es (find_next next lowest (k + length es) es) p
            (find_next_lem k n lowest es hn (omega arith) lw li all.1 dis.1 least.1))
    | inr d ↦ elim (Bool-cases (seq_of e == next)) [
      | inl hit ↦
          let b = in_block e all.0 in
          let eq : whole ≡ found_here = ground arith in
          subst (Result k n lowest (e ∷ es)) (sym eq) (
            inl (record {
              left = record {
                all = all.1;
                distinct = dis.1;
                fewer = λ s h. ground arith;
                above = AtLeast-suc n es hn all.1 least.1 (ground arith);
                count = omega arith;
              };
              e = e;
              is_found = refl;
              holds = all.0;
              is_data = d;
              at_n = ground arith;
              fewer_data = ground arith;
              shorter = omega arith;
            }))
      | inr miss ↦
          let low = lower k n lowest e es in
          let bounds = lower_bounds k n lowest e es (in_block e all.0) lw li in
          let rest = find_next next low (k + 1 + length es) es in
          let eq : whole ≡ keep e rest = ground arith in
          subst (Result k n lowest (e ∷ es)) (sym eq) (
            keep_step k n lowest e es rest all.0 d miss (least.0 d) hn lw li dis.0 (
              find_next_lem (k + 1) n low es hn (omega arith) bounds.0 bounds.3 all.1 dis.1
                least.1))
    ]
  ]
    where
      next : ℕ
      next = (base + n) % 2 ^ 16

      whole : Pass
      whole = find_next next lowest (k + length (e ∷ es)) (e ∷ es)

      found_here : Pass
      found_here = record {
        kept = record { entries = es; count = dec (k + length (e ∷ es)) };
        found = some e;
        lowest = lowest;
      }
