-- ===== src/AudioQueue/Links.antt =====
-- The pointers between the blocks of RtpAudioQueue.c, `next` and `prev` of a block with `blockHead`
-- and `blockTail` of the queue: the writes of `getFecBlockForRtpPacket` and `freeFecBlockHead`, and
-- the assertions of `validateFecBlockState` on them. A pointer is a number, and NULL is 0. The rest
-- of the queue's model has the sequence of the blocks in place of these.
pub mod Chain
pub mod Insertion
pub mod Places
pub mod Checks
mod Tests
use tesla_moonlight_ubuntu.Base.{
  ℕ, zero, suc, Bool, true, false, ◌&&◌, ◌||◌, not, ◌==◌, if◌then◌else◌,
}

-- The links of `RTPA_FEC_BLOCK`
pub record Link : Type 0 where
  pub prev : ℕ
  pub next : ℕ

abbrev pub Memory : Type 0
Memory = ℕ → Link

abbrev pub write : Memory → ℕ → Link → Memory
write m p l a = if a == p then l else m a

abbrev pub set_prev : Memory → ℕ → ℕ → Memory
set_prev m p q = write m p (record (m p) { prev = q })

abbrev pub set_next : Memory → ℕ → ℕ → Memory
set_next m p q = write m p (record (m p) { next = q })

-- `blockHead` and `blockTail`, and the memory of all blocks
pub record BlockList : Type 0 where
  pub memory : Memory
  pub head : ℕ
  pub tail : ℕ

abbrev pub no_blocks : Memory → BlockList
no_blocks m = record { memory = m; head = 0; tail = 0 }

-- `existingBlock = existingBlock->next`, as often as the search goes on
unfoldable pub search : Memory → (rounds : ℕ) → ℕ → ℕ
search m zero p = p
search m (suc i) p = search m i (m p).next

-- `memset` of the new block
abbrev pub clear : Memory → ℕ → Memory
clear m block = write m block (record { prev = 0; next = 0 })

-- "This new block comes right before existingBlock"
unfoldable pub insert_before : BlockList → (existing block : ℕ) → BlockList
insert_before s existing block =
    let prev_block = (s.memory existing).prev in
    let m = set_prev s.memory existing block in
    let m' = if prev_block == 0 then m else set_next m prev_block block in
    record s {
      memory = set_next (set_prev m' block prev_block) block existing;
      head = if prev_block == 0 then block else s.head;
    }

-- "This block goes at the tail of the list"
unfoldable pub insert_tail : BlockList → (block : ℕ) → BlockList
insert_tail s block =
    let m = set_prev s.memory block s.tail in
    record s {
      memory = if s.tail == 0 then m else set_next m s.tail block;
      head = if s.head == 0 then block else s.head;
      tail = block;
    }

-- A new block, in front of `existing` unless that is NULL
unfoldable pub insert_links : BlockList → (existing block : ℕ) → BlockList
unfolding insert_before insert_tail
insert_links s existing block =
    let cleared = record s { memory = clear s.memory block } in
    if existing == 0 then insert_tail cleared block else insert_before cleared existing block

-- `freeFecBlockHead`: the first block is taken off. If it is cached, its own `next` leads to the
-- cache's old head.
unfoldable pub free_head_links : (is_cached : Bool) → (free_head : ℕ) → BlockList → BlockList
free_head_links is_cached free_head s =
    let next = (s.memory s.head).next in
    let m = if next == 0 then s.memory else set_prev s.memory next 0 in
    record s {
      memory = if is_cached then set_next m s.head free_head else m;
      head = next;
      tail = if next == 0 then 0 else s.tail;
    }

-- The loop of `validateFecBlockState`, on fuel: each block points back to the one before it, and
-- only the tail has none behind it.
unfoldable pub links_hold : ℕ → (tail last block : ℕ) → Memory → Bool
links_hold zero tail last block m = block == 0
links_hold (suc f) tail last block m =
    let rest = links_hold f tail block (m block).next m in
    if block == 0
    then true
    else ((m block).prev == last) && ((not ((m block).next == 0) || (tail == block)) && rest)

-- The assertions of `validateFecBlockState` on links; the head has no previous block.
unfoldable pub validate_links : ℕ → BlockList → Bool
unfolding links_hold
validate_links f s =
    if s.head == 0
    then true
    else ((s.memory s.head).prev == 0) && links_hold f s.tail s.head (s.memory s.head).next s.memory
