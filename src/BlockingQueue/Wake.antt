-- ===== src/BlockingQueue/Wake.antt =====
-- The signals of the condition variable over the calls of several threads, in any order: one is
-- sent when the reason to sleep in `LbqWaitForQueueElement` ends. Which thread it wakes is not
-- modelled.
use tesla_moonlight_ubuntu.Base.{
  ℕ, ◌≤◌, ◌<◌, ◌≡◌, ◌≢◌, true, false, Option, some, arith, Bool-cases, inl, inr,
}
use tesla_moonlight_ubuntu.BlockingQueue.{
  World, Status, must_wait, offer, poll, wait, flush, remove_head, signal_shutdown, signal_drain,
  signal_user_wake, linked,
}

-- One call of any thread.
pub data Step (w : World) : World → Type 0 where
  offered : (d e : ℕ) → e ≢ 0 → Step w (offer w d e).1
  polled : Step w (poll w).2
  flushed : Step w (flush w).1
  waited : {w' : World} (s : Status) (out : Option ℕ) → wait w ≡ some (s, out, w') → Step w w'
  shut_down : Step w (signal_shutdown w)
  drained : Step w (signal_drain w)
  woken : Step w (signal_user_wake w)

pub data Reach (w : World) : World → Type 0 where
  here : Reach w w
  next : {u v : World} → Reach w u → Step u v → Reach w v

-- No call takes a signal back.
signals_grow : {w w' : World} → Step w w' → w.signals ≤ w'.signals
unfolding offer linked poll flush wait remove_head signal_shutdown signal_drain signal_user_wake
signals_grow (offered d e ne) = ground arith
signals_grow polled = ground arith
signals_grow flushed = ground arith
signals_grow (waited s out h) = ground arith
signals_grow shut_down = ground arith
signals_grow drained = ground arith
signals_grow woken = ground arith

-- The call that ends the reason to sleep sends a signal.
Step-signals :
    {w w' : World}
    → Step w w'
    → must_wait w.queue ≡ true
    → must_wait w'.queue ≡ false
    → w.signals < w'.signals
unfolding offer linked poll flush wait remove_head signal_shutdown signal_drain signal_user_wake
Step-signals (offered d e ne) b a = ground arith
Step-signals polled b a = ground arith
Step-signals flushed b a = ground arith
Step-signals (waited s out h) b a = ground arith
Step-signals shut_down b a = ground arith
Step-signals drained b a = ground arith
Step-signals woken b a = ground arith

signals-Reach : {w w' : World} → Reach w w' → w.signals ≤ w'.signals
signals-Reach here = omega arith
signals-Reach (next r st) = omega (arith, signals-Reach r, signals_grow st)

-- If a thread goes to sleep in one state of the queue and in a later one, after any calls of other
-- threads with entries that are not NULL, there is no reason to sleep any more, then a signal was
-- sent in between.
pub no_lost_wakeup :
    {w w' : World}
    → Reach w w'
    → must_wait w.queue ≡ true
    → must_wait w'.queue ≡ false
    → w.signals < w'.signals
no_lost_wakeup here b a = ground arith
no_lost_wakeup (next {u} r st) b a = elim (Bool-cases (must_wait u.queue)) [
  | inl still ↦ omega (arith, signals-Reach r, Step-signals st still a)
  | inr over ↦ omega (arith, no_lost_wakeup r b over, signals_grow st)
]
