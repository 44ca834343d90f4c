-- ===== src/BoundedQueue.antt =====
-- common/BoundedQueue.h: the bounded queue between two threads. Each operation is what a thread does
-- while it holds the lock; where its wait goes on, the operation returns `none` and changes nothing.
-- The condition variables are in Monitor.
pub mod Monitor
pub mod Fifo
pub mod Close
pub mod Peak
pub mod Bounds
pub mod Wakeup
pub mod Tests
use lowlat_stream.Base.{
  ℕ, zero, suc, ◌+◌, Bool, true, false, not, ltb, ◌||◌, if◌then◌else◌, Option, none, some, List, [],
  ◌∷◌, ◌++◌, length,
}

pub record BoundedQueue (T : Type 0) : Type 0 where
  pub items : List T
  pub cap : ℕ
  pub peak : ℕ
  pub dropped : ℕ
  pub closed : Bool

-- The constructor, which asserts that the capacity is not 0.
abbrev pub init : {T : Type 0} → ℕ → BoundedQueue T
init n = record { items = []; cap = n; peak = 0; dropped = 0; closed = false }

module _ {T : Type 0} where
  unfoldable pub enqueue_locked : T → BoundedQueue T → BoundedQueue T
  enqueue_locked x q =
      let items = q.items ++ (x ∷ []) in
      record q { items = items; peak = if ltb q.peak (length items) then length items else q.peak }

  -- The conditions that end the waits of `push` and `pop`.
  unfoldable pub may_push : BoundedQueue T → Bool
  may_push q = ltb (length q.items) q.cap || q.closed

  unfoldable pub may_pop : BoundedQueue T → Bool
  may_pop q = ltb 0 (length q.items) || q.closed

  unfoldable pub push : T → BoundedQueue T → Option (Bool × BoundedQueue T)
  push x q =
      if not (may_push q)
      then none
      else (if q.closed then some (false, q) else some (true, enqueue_locked x q))

  unfoldable pub try_push : T → BoundedQueue T → Bool × BoundedQueue T
  try_push x q =
      if q.closed || not (ltb (length q.items) q.cap)
      then (false, q)
      else (true, enqueue_locked x q)

  unfoldable pub drop_front : BoundedQueue T → List T → BoundedQueue T
  drop_front q [] = q
  drop_front q (x ∷ xs) = record q { items = xs; dropped = suc q.dropped }

  unfoldable pub force_push : T → BoundedQueue T → Bool × BoundedQueue T
  force_push x q =
      if q.closed
      then (false, q)
      else (true, enqueue_locked x (if ltb (length q.items) q.cap then q else drop_front q q.items))

  -- The front, once the wait is over: nothing when the queue is empty.
  unfoldable pub take_front : BoundedQueue T → List T → Option T × BoundedQueue T
  take_front q [] = (none, q)
  take_front q (x ∷ xs) = (some x, record q { items = xs })

  unfoldable pub pop : BoundedQueue T → Option (Option T × BoundedQueue T)
  pop q = if may_pop q then some (take_front q q.items) else none

  -- The wait ends at the timeout as well.
  unfoldable pub pop_for : Bool → BoundedQueue T → Option (Option T × BoundedQueue T)
  pop_for timed_out q = if may_pop q || timed_out then some (take_front q q.items) else none

  unfoldable pub close : BoundedQueue T → BoundedQueue T
  close q = record q { closed = true }

  unfoldable pub clear : BoundedQueue T → BoundedQueue T
  clear q = record q { items = []; dropped = q.dropped + length q.items }

  abbrev pub size : BoundedQueue T → ℕ
  size q = length q.items

  abbrev pub is_closed : BoundedQueue T → Bool
  is_closed q = q.closed
