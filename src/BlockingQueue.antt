-- ===== src/BlockingQueue.antt =====
-- LinkedBlockingQueue.c: a bounded queue of caller-owned entries, doubly linked through the
-- entries' own `flink` and `blink`. Entries live on an explicit heap. Each function's locked
-- region is one atomic step; `signals` counts the calls of PltSignalConditionVariable, each of
-- which the C code makes after it has unlocked. A pointer is a number, and NULL is 0.
pub mod Fifo
pub mod Chain
pub mod Refine
pub mod Wake
mod Tests
use tesla_moonlight_ubuntu.Base.{
  ℕ, ◌+◌, ◌-◌, ◌%◌, ◌^◌, Bool, true, false, not, ◌&&◌, ◌||◌, Option, none, some, ◌==◌,
  if◌then◌else◌,
}

-- `LINKED_BLOCKING_QUEUE_ENTRY`
pub record Entry : Type 0 where
  pub flink : ℕ
  pub blink : ℕ
  pub item : ℕ

abbrev pub Heap : Type 0
Heap = ℕ → Entry

unfoldable pub write : Heap → ℕ → Entry → Heap
write h p e a = if a == p then e else h a

-- `LINKED_BLOCKING_QUEUE` but its mutex and condition variable
pub record Queue : Type 0 where
  pub head : ℕ
  pub tail : ℕ
  pub size_bound : ℕ
  pub current_size : ℕ
  pub lifetime_size : ℕ
  pub shutdown : Bool
  pub draining : Bool
  pub pending_user_wake : Bool

pub record World : Type 0 where
  pub heap : Heap
  pub queue : Queue
  pub signals : ℕ

-- `LBQ_SUCCESS` and the other return codes
pub data Status : Type 0 where
  success interrupted bound_exceeded no_element user_wake : Status

abbrev pub empty_queue : Queue
empty_queue = record {
  head = 0;
  tail = 0;
  size_bound = 0;
  current_size = 0;
  lifetime_size = 0;
  shutdown = false;
  draining = false;
  pending_user_wake = false;
}

-- `mutex_err` and `cond_err` are what PltCreateMutex and PltCreateConditionVariable return.
pub initialize : (mutex_err cond_err : ℕ) → World → ℕ → ℕ × World
initialize mutex_err cond_err w bound =
    if not (mutex_err == 0)
    then (mutex_err, record w { queue = empty_queue })
    else if not (cond_err == 0)
    then (cond_err, record w { queue = empty_queue })
    else (0, record w { queue = record empty_queue { size_bound = bound } })

-- `LbqDestroyLinkedBlockingQueue` hands the entries that are left to the caller.
pub destroy : World → ℕ
destroy w = w.queue.head

abbrev signal : World → World
signal w = record w { signals = w.signals + 1 }

-- The old head, from which the caller frees the entries.
pub flush : World → ℕ × World
flush w =
    if not (w.queue.head == 0)
    then (
      w.queue.head,
      record w { queue = record (w.queue) { head = 0; tail = 0; current_size = 0 } },
    )
    else (w.queue.head, w)

pub signal_shutdown : World → World
signal_shutdown w = signal (record w { queue = record (w.queue) { shutdown = true } })

pub signal_drain : World → World
signal_drain w = signal (record w { queue = record (w.queue) { draining = true } })

pub signal_user_wake : World → World
signal_user_wake w = signal (record w { queue = record (w.queue) { pending_user_wake = true } })

pub get_item_count : World → ℕ
get_item_count w = w.queue.current_size

-- `entry->flink = NULL; entry->data = data;`
pub prepare : Heap → ℕ → ℕ → Heap
unfolding write
prepare h e d = write h e (record (h e) { flink = 0; item = d })

-- The two ways to link the entry in: as the only one, or behind the tail.
pub link_first : Heap → ℕ → Heap
unfolding write
link_first h e = write h e (record (h e) { blink = 0 })

pub link_last : Heap → ℕ → ℕ → Heap
unfolding write
link_last h t e =
    let h' = write h t (record (h t) { flink = e }) in write h' e (record (h' e) { blink = t })

-- `currentSize++` and `lifetimeSize++` of `int`s, as bit patterns
abbrev add_int : ℕ → ℕ → ℕ
add_int a b = (a + b) % 2 ^ 32

pub linked : Queue → ℕ → Bool → Queue
linked q e was_empty = record q {
  head = if was_empty then e else q.head;
  tail = e;
  current_size = add_int q.current_size 1;
  lifetime_size = add_int q.lifetime_size 1;
}

pub offer : World → ℕ → ℕ → Status × World
unfolding prepare link_first link_last linked
offer w d e =
    let q = w.queue in
    let h = prepare w.heap e d in
    let was_empty = q.head == 0 in
    if q.shutdown || q.draining
    then (interrupted, record w { heap = h })
    else if q.current_size == q.size_bound
    then (bound_exceeded, record w { heap = h })
    else (
      success,
      record {
        heap = if was_empty then link_first h e else link_last h q.tail e;
        queue = linked q e was_empty;
        signals = if was_empty then w.signals + 1 else w.signals;
      },
    )

-- The removal of the head entry, which `LbqPollQueueElement` and `LbqWaitForQueueElement` share.
-- The first part is `*data`.
pub remove_head : World → ℕ × World
unfolding write
remove_head w =
    let q = w.queue in
    let entry = w.heap q.head in
    let next = entry.flink in
    let size = add_int q.current_size (2 ^ 32 - 1) in
    if next == 0
    then (entry.item, record w { queue = record q { head = next; tail = 0; current_size = size } })
    else (
      entry.item,
      record w {
        heap = write w.heap next (record (w.heap next) { blink = 0 });
        queue = record q { head = next; current_size = size };
      },
    )

-- The status of a call that finds the queue shut down or empty, and `none` where it goes on.
abbrev early : Queue → Option Status
early q =
    if q.shutdown
    then some interrupted
    else if q.head == 0
    then some (if q.draining then interrupted else no_element)
    else none

pub peek : World → Status × Option ℕ
peek w = elim (early w.queue) [
  | some s ↦ (s, none)
  | none ↦ (success, some (w.heap w.queue.head).item)
]

pub poll : World → Status × Option ℕ × World
unfolding remove_head
poll w = elim (early w.queue) [
  | some s ↦ (s, none, w)
  | none ↦ (success, some (remove_head w).0, (remove_head w).1)
]

-- One test of the loop in `LbqWaitForQueueElement`: `none` means that the thread goes to sleep on
-- the condition variable, to test again after a signal.
abbrev pub must_wait : Queue → Bool
must_wait q = (q.head == 0) && (not q.draining && (not q.shutdown && not q.pending_user_wake))

pub wait : World → Option (Status × Option ℕ × World)
unfolding remove_head
wait w =
    let q = w.queue in
    if must_wait q
    then none
    else if q.shutdown
    then some (interrupted, none, w)
    else if q.pending_user_wake
    then some (user_wake, none, record w { queue = record q { pending_user_wake = false } })
    else if q.draining && (q.head == 0)
    then some (interrupted, none, w)
    else some (success, some (remove_head w).0, (remove_head w).1)
