-- ===== src/VideoQueue/Window.antt =====
-- The block as a window of sequence numbers: the distance of an entry from the block's lowest
-- number, and what is said of lists of entries by it.
use tesla_moonlight_ubuntu.Base.{
  ℕ, ◌+◌, ◌^◌, ◌<◌, ◌≤◌, ◌≡◌, Bool, true, false, not, ◌&&◌, ◌||◌, List, [], ◌∷◌, ◌==◌, ltb,
}
use tesla_moonlight_ubuntu.Seq.{diff16}
use tesla_moonlight_ubuntu.VideoQueue.Types.{Entry, seq_of}

abbrev pub has_seq : ℕ → List Entry → Bool
has_seq s [] = false
has_seq s (e ∷ es) = (seq_of e == s) || has_seq s es

-- No two entries have the same sequence number.
abbrev pub Distinct : List Entry → Type 0
Distinct [] = Unit
Distinct (e ∷ es) = (has_seq (seq_of e) es ≡ false) × Distinct es

abbrev pub has_data : ℕ → List Entry → Bool
has_data s [] = false
has_data s (e ∷ es) = (not e.is_parity && (seq_of e == s)) || has_data s es

abbrev pub one_if : Bool → ℕ
one_if true = 1
one_if false = 0

abbrev pub data_count : List Entry → ℕ
data_count [] = 0
data_count (e ∷ es) = one_if (not e.is_parity) + data_count es

-- A packet of the block of `total` packets from `base`, the first `data` of which hold data.
pub record InBlock (base data_total total : ℕ) (e : Entry) : Type 0 where
  pub word : seq_of e < 2 ^ 16
  pub inside : diff16 (seq_of e) base < total
  pub kind : e.is_parity ≡ not (ltb (diff16 (seq_of e) base) data_total)

-- Every data packet of the list lies at a distance of at least `n`.
abbrev pub AtLeast : ℕ → ℕ → List Entry → Type 0
AtLeast base n [] = Unit
AtLeast base n (e ∷ es) = (e.is_parity ≡ false → n ≤ diff16 (seq_of e) base) × AtLeast base n es
