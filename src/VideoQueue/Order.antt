-- ===== src/VideoQueue/Order.antt =====
-- `stageCompleteFecBlock` ends, takes every packet off the pending list, and moves the data packets
-- over in the order of their sequence numbers.
use tesla_moonlight_ubuntu.Base.{
  ℕ, suc, ◌+◌, ◌*◌, ◌%◌, ◌^◌, ◌<◌, ◌≤◌, ◌≡◌, refl, ◌∙◌, ◌⊎◌, inl, inr, true, false, not, ◌&&◌, List,
  [], ◌∷◌, ◌++◌, append_assoc, ◌==◌, length, Bool-cases, arith, All,
}
use tesla_moonlight_ubuntu.Seq.{diff16}
use tesla_moonlight_ubuntu.VideoQueue.Types.{Entry, seq_of, QueueList}
use tesla_moonlight_ubuntu.VideoQueue.Pending.{insert_entry_into_list}
use tesla_moonlight_ubuntu.VideoQueue.Stage.{Pass}
use tesla_moonlight_ubuntu.VideoQueue.Window.{has_data, data_count, InBlock, AtLeast}
use tesla_moonlight_ubuntu.VideoQueue.Scan.{Miss}

module _ (base data_total total : ℕ) (P : Entry → Type 0) (base_word : base < 2 ^ 16)
    (small : total < 2 ^ 15) (in_block : (e : Entry) → P e → InBlock base data_total total e)
    (time : ℕ) where
  -- Entries at growing distances of at least `n` from the base, each a data packet of the block
  -- with the time set.
  pub data Staged : ℕ → List Entry → Type 0 where
    nil : {n : ℕ} → Staged n []
    cons :
        {n : ℕ} {es : List Entry} (e : Entry) (d : ℕ)
        → n ≤ d
        → diff16 (seq_of e) base ≡ d
        → P e
        → e.is_parity ≡ false
        → Staged (suc d) es
        → Staged n (record e { receive_time_ms = time } ∷ es)

  Staged-weaken : {m n : ℕ} {es : List Entry} → m ≤ n → Staged n es → Staged m es
  Staged-weaken h nil = nil
  Staged-weaken h (cons e d le at p k s) = cons e d (omega arith) at p k s

  -- What the loop returns from a state on.
  pub record Done (n : ℕ) (es : List Entry) (completed : QueueList) (out : QueueList × QueueList)
      : Type 0 where
    pub staged : List Entry
    pub is_staged : Staged n staged
    pub how_many : length staged ≡ data_count es
    pub emptied : out.0 ≡ record { entries = []; count = 0 }
    pub appended : out.1.entries ≡ completed.entries ++ staged
    pub new_count : out.1.count % 2 ^ 32 ≡ (completed.count + length staged) % 2 ^ 32

  data_count-le : (es : List Entry) → data_count es ≤ length es
  data_count-le [] = omega arith
  data_count-le (e ∷ es) = ground (arith, data_count-le es)

  pub Done-hit :
      (n : ℕ) (e : Entry) (es kept : List Entry) (completed : QueueList)
      (out : QueueList × QueueList)
      → diff16 (seq_of e) base ≡ n
      → P e
      → e.is_parity ≡ false
      → data_count es ≡ data_count kept + 1
      → Done
          (suc n)
          kept
          (insert_entry_into_list completed (record e { receive_time_ms = time }))
          out
      → Done n es completed out
  unfolding insert_entry_into_list
  Done-hit n e es kept completed out at p k dc d = record {
    staged = record e { receive_time_ms = time } ∷ d.staged;
    is_staged = cons e n (omega arith) at p k d.is_staged;
    how_many = omega (arith, d.how_many);
    emptied = d.emptied;
    appended =
        d.appended
        ∙ append_assoc completed.entries (record e { receive_time_ms = time } ∷ []) d.staged;
    new_count = omega (arith, d.new_count);
  }

  has_data-false : (s : ℕ) (es : List Entry) → data_count es ≡ 0 → has_data s es ≡ false
  has_data-false s [] h = refl
  has_data-false s (e ∷ es) h = ground (arith, has_data-false s es)

  -- From a parity packet's distance on there is no data packet.
  no_data_beyond :
      (n : ℕ) (es : List Entry) → data_total ≤ n → All P es → AtLeast base n es → data_count es ≡ 0
  no_data_beyond n [] h all least = refl
  no_data_beyond n (e ∷ es) h all least =
      let b = in_block e all.0 in ground (arith, no_data_beyond n es h all.1 least.1)

  has_data-least :
      (s m : ℕ) (es : List Entry) → has_data s es ≡ true → AtLeast base m es → m ≤ diff16 s base
  has_data-least s m [] h least = cc
  has_data-least s m (e ∷ es) h least = elim (Bool-cases (not e.is_parity && (seq_of e == s))) [
    | inl here ↦ let le : m ≤ diff16 (seq_of e) base = least.0 (ground arith) in ground arith
    | inr there ↦ has_data-least s m es (ground arith) least.1
  ]

  pub Staged-empty : (n : ℕ) (es : List Entry) → length es ≡ 0 → Staged n es
  Staged-empty n [] h = nil
  Staged-empty n (e ∷ es) h = absurd (omega arith)

  pub Done-miss :
      (n m : ℕ) (es kept : List Entry) (completed : QueueList) (out : QueueList × QueueList)
      → (n ≤ m) ⊎ (data_count kept ≡ 0)
      → data_count es ≡ data_count kept
      → Done m kept completed out
      → Done n es completed out
  Done-miss n m es kept completed out why dc d = record {
    staged = d.staged;
    is_staged = weaken why;
    how_many = omega (arith, d.how_many);
    emptied = d.emptied;
    appended = d.appended;
    new_count = d.new_count;
  }
    where
      weaken : (n ≤ m) ⊎ (data_count kept ≡ 0) → Staged n d.staged
      weaken (inl le) = Staged-weaken le d.is_staged
      weaken (inr z) = Staged-empty n d.staged (omega (arith, d.how_many))

  -- Why the fuel is enough: a pass that finds nothing is followed by one that does.
  abbrev pub Enough : ℕ → ℕ → List Entry → Type 0
  Enough fuel n es =
      (2 * length es + 1 < fuel)
      ⊎ ((2 * length es < fuel) × (has_data ((base + n) % 2 ^ 16) es ≡ true))

  -- After a pass that found nothing, the next one finds something, or nothing is left.
  pub fuel_left :
      (fuel n : ℕ) (e : Entry) (es : List Entry) (pass : Pass)
      → Enough (suc fuel) n (e ∷ es)
      → P e
      → Miss base data_total total P base_word small in_block 0 n (seq_of e) (e ∷ es) pass
      → Enough fuel (diff16 pass.lowest base) pass.kept.entries
        × ((n ≤ diff16 pass.lowest base) ⊎ (data_count pass.kept.entries ≡ 0))
  fuel_left fuel n e es pass enough p m = go enough m.low_seen
    where
      low : ℕ
      low = pass.lowest

      back : (base + diff16 low base) % 2 ^ 16 ≡ low
      back = omega (arith, m.low_word)

      seen :
          2 * length (e ∷ es) + 1 < suc fuel
          → has_data low pass.kept.entries ≡ true
          → Enough fuel (diff16 low base) pass.kept.entries
            × ((n ≤ diff16 low base) ⊎ (data_count pass.kept.entries ≡ 0))
      seen h f = (
        inr (omega (arith, m.no_longer), rw back f),
        inl (omega (arith, has_data-least low (n + 1) pass.kept.entries f m.left.above)),
      )

      go :
          Enough (suc fuel) n (e ∷ es)
          → (low ≡ seq_of e) ⊎ (has_data low pass.kept.entries ≡ true)
          → Enough fuel (diff16 low base) pass.kept.entries
            × ((n ≤ diff16 low base) ⊎ (data_count pass.kept.entries ≡ 0))
      go (inr there) _ = absurd (ground (arith, m.absent))
      go (inl h) (inr f) = seen h f
      go (inl h) (inl s) = elim (Bool-cases e.is_parity) [
        | inr d ↦ seen h (rw s (m.stays (seq_of e) (ground arith)))
        | inl p' ↦
            let b = in_block e p in
            let z : data_count pass.kept.entries ≡ 0 =
              no_data_beyond (diff16 low base) pass.kept.entries (ground arith) m.left.all
                m.low_least in
            (inl (omega (arith, m.all_data)), inr z)
      ]
