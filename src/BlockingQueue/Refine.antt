-- ===== src/BlockingQueue/Refine.antt =====
-- The blocking queue over its linked entries behaves as the bounded first-in first-out sequence
-- of `Fifo`.
use tesla_moonlight_ubuntu.Base.{
  ℕ, ◌^◌, ◌≡◌, ◌≢◌, ◌≤◌, ◌<◌, refl, true, false, Option, none, some, [], ◌∷◌, ◌++◌, ◌==◌,
  if◌then◌else◌, length, length-append, arith,
}
use mathlib.Core.Path.{subst}
use tesla_moonlight_ubuntu.BlockingQueue.{
  Heap, World, Status, write, prepare, link_first, link_last, linked, offer, poll, peek, wait,
  flush, remove_head, initialize, signal_shutdown, signal_drain, signal_user_wake,
}
use tesla_moonlight_ubuntu.BlockingQueue.Fifo
use tesla_moonlight_ubuntu.BlockingQueue.Fifo.{Fifo, Cells}
use tesla_moonlight_ubuntu.BlockingQueue.Chain.{
  has, last_of, Chain, Chain-frame, Chain-snoc, Chain-first, Chain-rest,
}

-- The queue `w` holds what the sequence `f` holds: the chain of entries from head to tail, their
-- number within the bound, and the flags.
pub record Represents (w : World) (f : Fifo) : Type 0 where
  pub chain : Chain w.heap 0 f.cells w.queue.head
  pub tail : w.queue.tail ≡ last_of 0 f.cells
  pub count : w.queue.current_size ≡ length f.cells
  pub bound : w.queue.size_bound ≡ f.bound
  pub bounded : length f.cells ≤ f.bound
  pub small : f.bound < 2 ^ 31
  pub is_shutdown : w.queue.shutdown ≡ f.shutdown
  pub is_draining : w.queue.draining ≡ f.draining
  pub is_waking : w.queue.pending_user_wake ≡ f.waking

last_of-snoc : (prev e d : ℕ) (cells : Cells) → last_of prev (cells ++ ((e, d) ∷ [])) ≡ e
last_of-snoc prev e d [] = refl
last_of-snoc prev e d ((x, dx) ∷ cells) = last_of-snoc x e d cells

-- A chain survives the preparation of an entry outside it.
Chain-prepare :
    (h : Heap) (e d : ℕ) (cells : Cells) (p : ℕ)
    → Chain h 0 cells p
    → has e cells ≡ false
    → Chain (prepare h e d) 0 cells p
unfolding prepare write
Chain-prepare h e d cells p c out = Chain-frame h (prepare h e d) 0 cells p c (λ a m. go a m)
  where
    go : (a : ℕ) → has a cells ≡ true → prepare h e d a ≡ h a
    go a m = ground arith

-- A chain on an equal heap from an equal pointer.
Chain-at :
    (h g : Heap) (p q : ℕ) (cells : Cells) → Chain h 0 cells p → h ≡ g → p ≡ q → Chain g 0 cells q
Chain-at h g p q cells c eh ep =
    subst (λ x. Chain g 0 cells x) ep (subst (λ x. Chain x 0 cells p) eh c)

Chain-linked :
    (h : Heap) (e d : ℕ) (cells : Cells) (p t : ℕ)
    → Chain h 0 cells p
    → t ≡ last_of 0 cells
    → e ≢ 0
    → has e cells ≡ false
    → Chain
        (if p == 0 then link_first (prepare h e d) e else link_last (prepare h e d) t e)
        0
        (cells ++ ((e, d) ∷ []))
        (if p == 0 then e else p)
Chain-linked h e d [] p t c et ne out =
    Chain-at (link_first (prepare h e d) e)
      (if p == 0 then link_first (prepare h e d) e else link_last (prepare h e d) t e) e
      (if p == 0 then e else p) ((e, d) ∷ []) (Chain-first h e d ne) (ground arith) (ground arith)
Chain-linked h e d ((x, dx) ∷ cells) p t c et ne out =
    Chain-at (link_last (prepare h e d) (last_of 0 ((x, dx) ∷ cells)) e)
      (if p == 0 then link_first (prepare h e d) e else link_last (prepare h e d) t e) p
      (if p == 0 then e else p) (((x, dx) ∷ cells) ++ ((e, d) ∷ []))
      (Chain-snoc h 0 e d x dx cells p c ne out) (ground arith) (ground arith)

abbrev pub Offered : Status × World → Status × Fifo → Type 0
Offered (s, w) (s', f) = (s ≡ s') × Represents w f

-- `LbqOfferQueueItem` with an entry that is not NULL and not already queued returns the status of
-- the bounded sequence's `offer`, and leaves the queue holding its result.
pub offer_refines :
    (w : World) (f : Fifo) (d e : ℕ)
    → Represents w f
    → e ≢ 0
    → has e f.cells ≡ false
    → Offered (offer w d e) (Fifo.offer f d e)
unfolding offer linked Fifo.offer
offer_refines w f d e r ne out =
    let q = w.queue in
    ground (
      arith,
      Chain-linked w.heap e d f.cells q.head q.tail,
      Chain-prepare w.heap e d f.cells q.head,
      last_of-snoc 0 e d f.cells,
      length-append f.cells ((e, d) ∷ []),
    )

abbrev pub with_cells : Fifo → Cells → Fifo
with_cells f cells = record f { cells = cells }

-- Taking the head entry off yields its data and leaves the rest.
remove_head-Represents :
    (w : World) (f : Fifo) (x d : ℕ) (cells : Cells)
    → Represents w (with_cells f ((x, d) ∷ cells))
    → ((remove_head w).0 ≡ d) × Represents (remove_head w).1 (with_cells f cells)
unfolding remove_head write
remove_head-Represents w f x d [] r = ground arith
remove_head-Represents w f x d ((y, dy) ∷ cells) r =
    let h = w.heap in
    let at : (h w.queue.head).flink ≡ y = ground arith in
    let c : Chain (write h y (record (h y) { blink = 0 })) 0 ((y, dy) ∷ cells) y =
      Chain-rest h x y dy cells (h x).flink r.chain.5 in
    let same : write h y (record (h y) { blink = 0 }) ≡ (remove_head w).1.heap = ground arith in
    let c' : Chain (remove_head w).1.heap 0 ((y, dy) ∷ cells) (remove_head w).1.queue.head =
      Chain-at _ _ _ _ ((y, dy) ∷ cells) c same (ground arith) in
    let z : ((h w.queue.head).flink == 0) ≡ false = ground arith in
    (
      ground arith,
      record {
        chain = c';
        tail = ground arith;
        count = ground arith;
        bound = ground arith;
        bounded = omega arith;
        small = r.small;
        is_shutdown = ground arith;
        is_draining = ground arith;
        is_waking = ground arith;
      },
    )

abbrev pub Polled : Status × Option ℕ × World → Status × Option ℕ × Fifo → Type 0
Polled (s, out, w) (s', out', f) = (s ≡ s') × (out ≡ out') × Represents w f

poll_cells :
    (w : World) (f : Fifo) (cells : Cells)
    → Represents w (with_cells f cells)
    → Polled (poll w) (Fifo.poll (with_cells f cells))
unfolding poll Fifo.poll Fifo.front Fifo.rest
poll_cells w f [] r = ground arith
poll_cells w f ((x, d) ∷ cells) r = ground (arith, remove_head-Represents w f x d cells r)

peek_cells :
    (w : World) (f : Fifo) (cells : Cells)
    → Represents w (with_cells f cells)
    → peek w ≡ Fifo.peek (with_cells f cells)
unfolding peek Fifo.peek Fifo.front
peek_cells w f [] r = ground arith
peek_cells w f ((x, d) ∷ cells) r = ground arith

-- `LbqPollQueueElement` returns the status and the data of the bounded sequence's `poll`, and
-- leaves the queue holding its result; `LbqPeekQueueElement` returns the status and data of `peek`.
pub poll_refines :
    (w : World) (f : Fifo) → Represents w f → Polled (poll w) (Fifo.poll f) × (peek w ≡ Fifo.peek f)
poll_refines w f r = (poll_cells w f f.cells r, peek_cells w f f.cells r)

abbrev pub Waited : Option (Status × Option ℕ × World) → Option (Status × Option ℕ × Fifo) → Type 0
Waited none none = Unit
Waited none (some r) = ⊥
Waited (some r) none = ⊥
Waited (some r) (some r') = Polled r r'

wait_cells :
    (w : World) (f : Fifo) (cells : Cells)
    → Represents w (with_cells f cells)
    → Waited (wait w) (Fifo.wait (with_cells f cells))
unfolding wait Fifo.wait Fifo.front Fifo.rest
wait_cells w f [] r = ground arith
wait_cells w f ((x, d) ∷ cells) r = ground (arith, remove_head-Represents w f x d cells r)

-- `LbqWaitForQueueElement` sleeps exactly when the bounded sequence's `wait` does, and otherwise
-- returns its status and data, and leaves the queue holding its result.
pub wait_refines : (w : World) (f : Fifo) → Represents w f → Waited (wait w) (Fifo.wait f)
wait_refines w f r = wait_cells w f f.cells r

flush_cells :
    (w : World) (f : Fifo) (cells : Cells)
    → Represents w (with_cells f cells)
    → Chain w.heap 0 cells (flush w).0 × Represents (flush w).1 (with_cells f [])
unfolding flush
flush_cells w f [] r = ground arith
flush_cells w f ((x, d) ∷ cells) r = (ground arith, ground arith)

-- `LbqFlushQueueItems` hands over the head of the chain of all queued entries and leaves the
-- queue empty; the three signals each set their flag and change nothing else.
pub control_refines :
    (w : World) (f : Fifo)
    → Represents w f
    → (Chain w.heap 0 f.cells (flush w).0 × Represents (flush w).1 (with_cells f []))
      × Represents (signal_shutdown w) (record f { shutdown = true })
      × Represents (signal_drain w) (record f { draining = true })
      × Represents (signal_user_wake w) (record f { waking = true })
unfolding signal_shutdown signal_drain signal_user_wake
control_refines w f r = (flush_cells w f f.cells r, ground arith, ground arith, ground arith)

-- A queue that `LbqInitializeLinkedBlockingQueue` makes with a bound that is an `int` and not
-- negative represents the empty sequence of that bound with no flag set.
pub initialize_refines :
    (w : World) (n : ℕ)
    → n < 2 ^ 31
    → Represents
        (initialize 0 0 w n).1
        (record { cells = []; bound = n; shutdown = false; draining = false; waking = false })
unfolding initialize
initialize_refines w n h = ground arith
