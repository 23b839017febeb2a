-- ===== src/BlockingQueue/Tests.antt =====
-- Runs of the blocking queue, and its theorems at concrete queues.
use tesla_moonlight_ubuntu.Base.{◌<◌, ◌≡◌, refl, true, false, some, [], arith}
use tesla_moonlight_ubuntu.BlockingQueue.{
  Heap, World, bound_exceeded, empty_queue, write, offer, poll, peek, wait, flush, initialize,
  signal_drain, signal_shutdown, signal_user_wake, prepare, link_first, link_last, linked,
  remove_head, get_item_count, destroy,
}
use tesla_moonlight_ubuntu.BlockingQueue.Fifo
use tesla_moonlight_ubuntu.BlockingQueue.Fifo.{Fifo}
use tesla_moonlight_ubuntu.BlockingQueue.Chain.{Chain}
use tesla_moonlight_ubuntu.BlockingQueue.Refine.{
  Represents, offer_refines, poll_refines, wait_refines, control_refines, initialize_refines,
  with_cells, Offered, Polled, Waited,
}
use tesla_moonlight_ubuntu.BlockingQueue.Wake.{here, next, offered, no_lost_wakeup}

abbrev blank : Heap
blank a = record { flink = 0; blink = 0; item = 0 }

-- room for two entries
abbrev start : World
start = record { heap = blank; queue = record empty_queue { size_bound = 2 }; signals = 0 }

abbrev start_fifo : Fifo
start_fifo = record { cells = []; bound = 2; shutdown = false; draining = false; waking = false }

abbrev one : World
one = (offer start 70 5).1

abbrev one_fifo : Fifo
one_fifo = (Fifo.offer start_fifo 70 5).1

start-Represents : Represents start start_fifo
start-Represents = ground arith

one-Represents : Represents one one_fifo
one-Represents = (offer_refines start start_fifo 70 5 start-Represents (omega arith) refl).1

two_then_full : (poll (offer one 80 6).1).1 ≡ some 70
unfolding offer poll prepare link_first link_last linked remove_head write
two_then_full = refl

offer_full : (offer (offer one 80 6).1 90 7).0 ≡ bound_exceeded
unfolding offer prepare link_first link_last linked write
offer_full = refl

count_and_head : (get_item_count one ≡ 1) × (destroy one ≡ 5)
unfolding get_item_count destroy offer linked
count_and_head = (refl, refl)

offer_refines_example : Offered (offer one 80 6) (Fifo.offer one_fifo 80 6)
unfolding Fifo.offer
offer_refines_example = offer_refines one one_fifo 80 6 one-Represents (omega arith) refl

poll_refines_example : Polled (poll one) (Fifo.poll one_fifo) × (peek one ≡ Fifo.peek one_fifo)
poll_refines_example = poll_refines one one_fifo one-Represents

wait_refines_example : Waited (wait one) (Fifo.wait one_fifo)
wait_refines_example = wait_refines one one_fifo one-Represents

control_refines_example :
    (Chain one.heap 0 one_fifo.cells (flush one).0
      × Represents (flush one).1 (with_cells one_fifo []))
    × Represents (signal_shutdown one) (record one_fifo { shutdown = true })
    × Represents (signal_drain one) (record one_fifo { draining = true })
    × Represents (signal_user_wake one) (record one_fifo { waking = true })
control_refines_example = control_refines one one_fifo one-Represents

initialize_refines_example :
    Represents
      (initialize 0 0 one 15).1
      (record { cells = []; bound = 15; shutdown = false; draining = false; waking = false })
initialize_refines_example = initialize_refines one 15 (omega arith)

no_lost_wakeup_example : 0 < one.signals
unfolding offer linked
no_lost_wakeup_example =
    no_lost_wakeup {w = start} {w' = one} (next here (offered 70 5 (omega arith))) refl refl
