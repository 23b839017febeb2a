-- ===== src/VideoQueue/Stage.antt =====
-- `stageCompleteFecBlock`, which moves the data packets of a complete block to the completed list
-- in the order of their sequence numbers, and `submitCompletedFrame`.
use tesla_moonlight_ubuntu.Base.{
  ℕ, zero, suc, ◌+◌, ◌*◌, Option, none, some, List, [], ◌∷◌, ◌==◌, if◌then◌else◌,
}
use tesla_moonlight_ubuntu.Seq.{u16, is_before16}
use tesla_moonlight_ubuntu.VideoQueue.Types.{
  Entry, seq_of, QueueList, submitted, VideoQueue, emit, sub_u32,
}
use tesla_moonlight_ubuntu.VideoQueue.Pending.{insert_entry_into_list}

-- What one pass of the inner loop leaves: the list, the entry that was found, and the lowest
-- sequence number that was seen.
pub record Pass : Type 0 where
  pub kept : QueueList
  pub found : Option Entry
  pub lowest : ℕ

abbrev pub keep : Entry → Pass → Pass
keep e s = let l = s.kept in record s { kept = record { entries = e ∷ l.entries; count = l.count } }

-- `removeEntryFromList` takes one off the count; here it is the entry at the cursor.
abbrev pub dec : ℕ → ℕ
dec n = sub_u32 n 1

-- The inner loop from an entry on, where `count` is the list's count.
unfoldable pub find_next : ℕ → ℕ → ℕ → List Entry → Pass
find_next next lowest count [] = record {
  kept = record { entries = []; count = count };
  found = none;
  lowest = lowest;
}
find_next next lowest count (e ∷ es) =
    let skip = find_next next lowest (dec count) es in
    let hit : Pass = record {
      kept = record { entries = es; count = dec count };
      found = some e;
      lowest = lowest;
    } in
    let go_on =
      keep e
        (find_next next (if is_before16 (seq_of e) lowest then seq_of e else lowest) count es) in
    if e.is_parity then skip else if seq_of e == next then hit else go_on

-- The sequence number of the list's head
abbrev pub head_seq : List Entry → ℕ
head_seq [] = 0
head_seq (e ∷ es) = seq_of e

-- The outer loop, on fuel. `time` is `bufferFirstRecvTimeMs`.
unfoldable pub stage_loop : ℕ → ℕ → ℕ → QueueList → QueueList → QueueList × QueueList
stage_loop zero time next pending completed = (pending, completed)
stage_loop (suc fuel) time next pending completed =
    let pass = find_next next (head_seq pending.entries) pending.count pending.entries in
    let rest : QueueList × QueueList = elim pass.found [
      | some e ↦
          stage_loop fuel time (u16 (next + 1)) pass.kept
            (insert_entry_into_list completed (record e { receive_time_ms = time }))
      | none ↦ stage_loop fuel time pass.lowest pass.kept completed
    ] in
    if pending.count == 0 then (pending, completed) else rest

-- Each entry takes at most one pass that finds nothing and one that finds it.
unfoldable pub stage_complete_fec_block : VideoQueue → VideoQueue
stage_complete_fec_block q =
    let (pending, completed) =
      stage_loop (2 * q.pending_fec_block_list.count + 2) q.buffer_first_recv_time_ms
        q.buffer_lowest_sequence_number q.pending_fec_block_list q.completed_fec_block_list in
    record q { pending_fec_block_list = pending; completed_fec_block_list = completed }

-- Each round hands the head of the completed list over, and takes it off the count.
unfoldable pub submit_entries : List Entry → VideoQueue → VideoQueue
submit_entries [] q = q
submit_entries (e ∷ es) q = submit_entries es (
    let r = emit q (submitted e) in
    record r {
      completed_fec_block_list = record {
        entries = es;
        count = dec q.completed_fec_block_list.count;
      };
    })

unfoldable pub submit_completed_frame : VideoQueue → VideoQueue
submit_completed_frame q = submit_entries q.completed_fec_block_list.entries q
