-- ===== src/VideoQueue/Valid.antt =====
-- The invariant of the video queue, and that `queuePacket` keeps it.
use tesla_moonlight_ubuntu.Base.{
  ℕ, zero, suc, ◌+◌, ◌%◌, ◌^◌, ◌<◌, ◌≤◌, ◌≡◌, refl, Bool, true, false, not, ◌||◌, ◌==◌, none, List,
  [], ◌∷◌, ◌++◌, ltb, length, arith, if◌then◌else◌, All,
}
use tesla_moonlight_ubuntu.Seq.{diff16, is_before16}
use tesla_moonlight_ubuntu.VideoQueue.Types.{Entry, seq_of, QueueList, VideoQueue}
use tesla_moonlight_ubuntu.VideoQueue.Pending.{check_duplicates}
use tesla_moonlight_ubuntu.VideoQueue.Window.{has_seq, Distinct, data_count, one_if, InBlock}

abbrev pub total_of : VideoQueue → ℕ
total_of q = q.buffer_data_packets + q.buffer_parity_packets

-- The fields of the queue that describe the pending block.
pub record Block : Type 0 where
  pub pending : QueueList
  pub lowest : ℕ
  pub highest : ℕ
  pub first_parity : ℕ
  pub data_total : ℕ
  pub parity_total : ℕ
  pub next_number : ℕ
  pub fast_path : Bool

abbrev pub block_of : VideoQueue → Block
block_of q = record {
  pending = q.pending_fec_block_list;
  lowest = q.buffer_lowest_sequence_number;
  highest = q.buffer_highest_sequence_number;
  first_parity = q.buffer_first_parity_sequence_number;
  data_total = q.buffer_data_packets;
  parity_total = q.buffer_parity_packets;
  next_number = q.next_contiguous_sequence_number;
  fast_path = q.use_fast_queue_path;
}

-- The bounds of the block agree with one another; every pending packet belongs to the block and is
-- there once; the fast path is on only while every pending packet lies before the next number.
pub record IsValidBlock (b : Block) : Type 0 where
  pub base_word : b.lowest < 2 ^ 16
  pub few_data : b.data_total < 2 ^ 10
  pub few_parity : b.parity_total < 2 ^ 12
  pub first_parity : b.first_parity ≡ (b.lowest + b.data_total) % 2 ^ 16
  pub highest : (b.highest + 1) % 2 ^ 16 ≡ (b.lowest + (b.data_total + b.parity_total)) % 2 ^ 16
  pub highest_word : b.highest < 2 ^ 16
  pub members :
      All (InBlock b.lowest b.data_total (b.data_total + b.parity_total)) b.pending.entries
  pub distinct : Distinct b.pending.entries
  pub count : b.pending.count ≡ length b.pending.entries % 2 ^ 32
  pub next_word : b.next_number < 2 ^ 16
  pub next_inside : diff16 b.next_number b.lowest ≤ b.data_total + b.parity_total
  pub fast :
      b.fast_path ≡ true
      → All (λ e. diff16 (seq_of e) b.lowest < diff16 b.next_number b.lowest) b.pending.entries

abbrev pub IsValid : VideoQueue → Type 0
IsValid q = IsValidBlock (block_of q)

pub All-snoc {ℓ} :
    {A : Type ℓ} (P : A → Type 0) (xs : List A) (x : A) → All P xs → P x → All P (xs ++ (x ∷ []))
All-snoc P [] x h p = (p, tt)
All-snoc P (y ∷ ys) x h p = (h.0, All-snoc P ys x h.1 p)

pub has_seq-snoc :
    (s : ℕ) (es : List Entry) (e : Entry)
    → has_seq s (es ++ (e ∷ [])) ≡ (has_seq s es || (seq_of e == s))
has_seq-snoc s [] e = ground arith
has_seq-snoc s (x ∷ xs) e = ground (arith, has_seq-snoc s xs e)

pub Distinct-snoc :
    (es : List Entry) (e : Entry)
    → Distinct es
    → has_seq (seq_of e) es ≡ false
    → Distinct (es ++ (e ∷ []))
Distinct-snoc [] e d h = (refl, tt)
Distinct-snoc (x ∷ xs) e d h =
    (ground (arith, has_seq-snoc (seq_of x) xs e), Distinct-snoc xs e d.1 (ground arith))

pub data_count-snoc :
    (es : List Entry) (e : Entry)
    → data_count (es ++ (e ∷ [])) ≡ data_count es + one_if (not e.is_parity)
data_count-snoc [] e = omega arith
data_count-snoc (x ∷ xs) e = omega (arith, data_count-snoc xs e)

-- The loop for duplicates lets only new numbers through.
pub check_duplicates-none :
    (s : ℕ) (b : Bool) (es : List Entry) → has_seq s es ≡ true → check_duplicates s b es ≡ none
unfolding check_duplicates
check_duplicates-none s b [] h = cc
check_duplicates-none s b (e ∷ es) h =
    ground (arith, check_duplicates-none s (if is_before16 s (seq_of e) then true else b) es)

pub has_seq-below :
    (base c s : ℕ) (es : List Entry)
    → All (λ e. diff16 (seq_of e) base < c) es
    → c ≤ diff16 s base
    → has_seq s es ≡ false
has_seq-below base c s [] h le = refl
has_seq-below base c s (e ∷ es) h le =
    let lt = h.0 in ground (arith, has_seq-below base c s es h.1 le)

pub All-weaken :
    (base c c' : ℕ) (es : List Entry)
    → c ≤ c'
    → All (λ e. diff16 (seq_of e) base < c) es
    → All (λ e. diff16 (seq_of e) base < c') es
All-weaken base c c' [] le h = tt
All-weaken base c c' (e ∷ es) le h = (omega (arith, h.0), All-weaken base c c' es le h.1)

-- How many packets lie at distance `t` from the base, and how many before it.
abbrev count_at : ℕ → ℕ → List Entry → ℕ
count_at base t [] = 0
count_at base t (e ∷ es) = one_if (diff16 (seq_of e) base == t) + count_at base t es

abbrev count_before : ℕ → ℕ → List Entry → ℕ
count_before base t [] = 0
count_before base t (e ∷ es) = one_if (ltb (diff16 (seq_of e) base) t) + count_before base t es

abbrev Words : List Entry → Type 0
Words es = All (λ e. seq_of e < 2 ^ 16) es

count_at-zero :
    (base t s : ℕ) (es : List Entry)
    → base < 2 ^ 16
    → s < 2 ^ 16
    → diff16 s base ≡ t
    → Words es
    → has_seq s es ≡ false
    → count_at base t es ≡ 0
count_at-zero base t s [] hb hs e w out = refl
count_at-zero base t s (x ∷ xs) hb hs e w out =
    let lt = w.0 in ground (arith, count_at-zero base t s xs hb hs e w.1)

count_at-le :
    (base t : ℕ) (es : List Entry) → base < 2 ^ 16 → Words es → Distinct es → count_at base t es ≤ 1
count_at-le base t [] hb w d = omega arith
count_at-le base t (x ∷ xs) hb w d =
    let lt = w.0 in
    let zero_there = count_at-zero base t (seq_of x) xs hb lt in
    ground (arith, zero_there, count_at-le base t xs hb w.1 d.1)

count_before-suc :
    (base t : ℕ) (es : List Entry)
    → count_before base (suc t) es ≡ count_before base t es + count_at base t es
count_before-suc base t [] = refl
count_before-suc base t (x ∷ xs) = ground (arith, count_before-suc base t xs)

count_before-le :
    (base t : ℕ) (es : List Entry)
    → base < 2 ^ 16
    → Words es
    → Distinct es
    → count_before base t es ≤ t
count_before-le base zero [] hb w d = omega arith
count_before-le base zero (x ∷ xs) hb w d = ground (arith, count_before-le base zero xs hb w.1 d.1)
count_before-le base (suc t) es hb w d = omega (
  arith,
  count_before-suc base t es,
  count_before-le base t es hb w d,
  count_at-le base t es hb w d,
)

length-count_before :
    (base data_total total : ℕ) (es : List Entry)
    → All (InBlock base data_total total) es
    → (length es ≡ count_before base total es) × Words es
length-count_before base data_total total [] h = (refl, tt)
length-count_before base data_total total (x ∷ xs) h =
    let b = h.0 in
    let ih = length-count_before base data_total total xs h.1 in
    (ground (arith, ih.0), (b.word, ih.1))

-- A block cannot hold more packets than it has places.
pub length-pending :
    (b : Block) → IsValidBlock b → length b.pending.entries ≤ b.data_total + b.parity_total
length-pending b v =
    let (all, words) =
      length-count_before b.lowest b.data_total (b.data_total + b.parity_total) b.pending.entries
        v.members in
    omega (
      arith,
      all,
      count_before-le b.lowest (b.data_total + b.parity_total) b.pending.entries v.base_word words
          v.distinct,
    )
