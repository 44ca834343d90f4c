-- ===== src/BoundedQueue/Monitor.antt =====
-- common/BoundedQueue.h: what threads can do to a queue, one critical section after another, with
-- the threads that wait on its two condition variables and the notifications that are on their way.
-- A thread notifies after it has left the lock, so other threads run in between.
use lowlat_stream.Base.{
  ℕ, suc, ◌+◌, ◌-◌, ◌<◌, ◌≡◌, Bool, true, false, ltb, if◌then◌else◌, none, some,
}
use lowlat_stream.BoundedQueue.{
  BoundedQueue, init, push, try_push, force_push, pop, pop_for, close, clear,
}

-- A condition variable: the threads that sleep on it, those that have been woken and have not yet
-- looked at the queue again, and the calls of notify_one and notify_all that are still to come.
pub record Condition : Type 0 where
  pub waiting : ℕ
  pub woken : ℕ
  pub one : ℕ
  pub all : ℕ

abbrev pub no_threads : Condition
no_threads = record { waiting = 0; woken = 0; one = 0; all = 0 }

-- A thread begins to wait, whether it comes anew or has been woken and looked in vain.
unfoldable pub sleep : Condition → Condition
sleep c = record c { waiting = suc c.waiting }

unfoldable pub leave : Condition → Condition
leave c = record c { woken = c.woken - 1 }

unfoldable pub owe_one : Condition → Condition
owe_one c = record c { one = suc c.one }

unfoldable pub owe_all : Condition → Condition
owe_all c = record c { all = suc c.all }

unfoldable pub notify_one : Condition → Condition
notify_one c =
    if ltb 0 c.waiting
    then record c { waiting = c.waiting - 1; woken = suc c.woken; one = c.one - 1 }
    else record c { one = c.one - 1 }

unfoldable pub notify_all : Condition → Condition
notify_all c = record c { waiting = 0; woken = c.woken + c.waiting; all = c.all - 1 }

-- A wait that reaches its timeout, or wakes without cause.
unfoldable pub wake_alone : Condition → Condition
wake_alone c = record c { waiting = c.waiting - 1; woken = suc c.woken }

pub record Monitor (T : Type 0) : Type 0 where
  pub queue : BoundedQueue T
  pub not_full : Condition
  pub not_empty : Condition

-- `b` says whether the thread that acts is one that has been woken.
abbrev pub resume : Bool → Condition → Condition
resume b c = if b then leave c else c

abbrev pub IsThere : Bool → Condition → Type 0
IsThere b c = if b then 0 < c.woken else Unit

module _ {T : Type 0} where
  pub data Step (m : Monitor T) (n : Monitor T) : Type 0 where
    push_waits :
        (x : T) (b : Bool)
        → IsThere b m.not_full
        → push x m.queue ≡ none
        → n ≡ record m { not_full = sleep (resume b m.not_full) }
        → Step m n
    push_ends :
        (x : T) (b : Bool) (q : BoundedQueue T)
        → IsThere b m.not_full
        → push x m.queue ≡ some (true, q)
        → n
          ≡ record m { queue = q; not_full = resume b m.not_full; not_empty = owe_one m.not_empty }
        → Step m n
    push_fails :
        (x : T) (b : Bool) (q : BoundedQueue T)
        → IsThere b m.not_full
        → push x m.queue ≡ some (false, q)
        → n ≡ record m { queue = q; not_full = resume b m.not_full }
        → Step m n
    try_push_ends :
        (x : T) (q : BoundedQueue T)
        → try_push x m.queue ≡ (true, q)
        → n ≡ record m { queue = q; not_empty = owe_one m.not_empty }
        → Step m n
    try_push_fails :
        (x : T) (q : BoundedQueue T)
        → try_push x m.queue ≡ (false, q)
        → n ≡ record m { queue = q }
        → Step m n
    force_push_ends :
        (x : T) (q : BoundedQueue T)
        → force_push x m.queue ≡ (true, q)
        → n ≡ record m { queue = q; not_empty = owe_one m.not_empty }
        → Step m n
    force_push_fails :
        (x : T) (q : BoundedQueue T)
        → force_push x m.queue ≡ (false, q)
        → n ≡ record m { queue = q }
        → Step m n
    -- `pop` and `popFor` sleep alike, and `popFor` with its time over does not.
    pop_waits :
        (b : Bool)
        → IsThere b m.not_empty
        → pop m.queue ≡ none
        → n ≡ record m { not_empty = sleep (resume b m.not_empty) }
        → Step m n
    pop_ends :
        (x : T) (b : Bool) (late : Bool) (q : BoundedQueue T)
        → IsThere b m.not_empty
        → pop_for late m.queue ≡ some (some x, q)
        → n
          ≡ record m { queue = q; not_empty = resume b m.not_empty; not_full = owe_one m.not_full }
        → Step m n
    pop_fails :
        (b : Bool) (late : Bool) (q : BoundedQueue T)
        → IsThere b m.not_empty
        → pop_for late m.queue ≡ some (none, q)
        → n ≡ record m { queue = q; not_empty = resume b m.not_empty }
        → Step m n
    close_runs :
        n ≡ record m {
          queue = close m.queue;
          not_full = owe_all m.not_full;
          not_empty = owe_all m.not_empty;
        }
        → Step m n
    clear_runs : n ≡ record m { queue = clear m.queue; not_full = owe_all m.not_full } → Step m n
    not_full_one : 0 < m.not_full.one → n ≡ record m { not_full = notify_one m.not_full } → Step m n
    not_empty_one :
        0 < m.not_empty.one → n ≡ record m { not_empty = notify_one m.not_empty } → Step m n
    not_full_all : 0 < m.not_full.all → n ≡ record m { not_full = notify_all m.not_full } → Step m n
    not_empty_all :
        0 < m.not_empty.all → n ≡ record m { not_empty = notify_all m.not_empty } → Step m n
    producer_wakes :
        0 < m.not_full.waiting → n ≡ record m { not_full = wake_alone m.not_full } → Step m n
    consumer_wakes :
        0 < m.not_empty.waiting → n ≡ record m { not_empty = wake_alone m.not_empty } → Step m n

  pub data Reach (m : Monitor T) : Monitor T → Type 0 where
    here : Reach m m
    next : {n p : Monitor T} → Reach m n → Step n p → Reach m p

  abbrev pub start : ℕ → Monitor T
  start n = record { queue = init n; not_full = no_threads; not_empty = no_threads }
