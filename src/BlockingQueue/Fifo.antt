-- ===== src/BlockingQueue/Fifo.antt =====
-- What a client of the blocking queue is promised: a bounded first-in first-out sequence of
-- entries with their data, and three flags. Nothing of the links remains.
use tesla_moonlight_ubuntu.Base.{
  ℕ, Bool, true, false, ◌||◌, Option, none, some, List, [], ◌∷◌, ◌++◌, ◌==◌, if◌then◌else◌, length,
}
use tesla_moonlight_ubuntu.BlockingQueue.{
  Status, success, interrupted, bound_exceeded, no_element, user_wake,
}

abbrev pub Cells : Type 0
Cells = List (ℕ × ℕ)

pub record Fifo : Type 0 where
  pub cells : Cells
  pub bound : ℕ
  pub shutdown : Bool
  pub draining : Bool
  pub waking : Bool

unfoldable pub offer : Fifo → ℕ → ℕ → Status × Fifo
offer f d e =
    if f.shutdown || f.draining
    then (interrupted, f)
    else if length f.cells == f.bound
    then (bound_exceeded, f)
    else (success, record f { cells = f.cells ++ ((e, d) ∷ []) })

-- what a call finds at the front
unfoldable pub front : Bool → Cells → Status × Option ℕ
front draining [] = (if draining then interrupted else no_element, none)
front draining ((e, d) ∷ cells) = (success, some d)

unfoldable pub rest : Cells → Cells
rest [] = []
rest (c ∷ cells) = cells

unfoldable pub peek : Fifo → Status × Option ℕ
peek f = if f.shutdown then (interrupted, none) else front f.draining f.cells

unfoldable pub poll : Fifo → Status × Option ℕ × Fifo
poll f = if f.shutdown then (interrupted, none, f) else (
  (front f.draining f.cells).0,
  (front f.draining f.cells).1,
  record f { cells = rest f.cells },
)

abbrev pub is_empty : Cells → Bool
is_empty [] = true
is_empty (c ∷ cells) = false

-- `none`: the caller sleeps
unfoldable pub wait : Fifo → Option (Status × Option ℕ × Fifo)
wait f =
    if f.shutdown
    then some (interrupted, none, f)
    else if f.waking
    then some (user_wake, none, record f { waking = false })
    else if is_empty f.cells
    then (if f.draining then some (interrupted, none, f) else none)
    else some (
      (front f.draining f.cells).0,
      (front f.draining f.cells).1,
      record f { cells = rest f.cells },
    )
