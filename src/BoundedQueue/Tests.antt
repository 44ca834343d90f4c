-- ===== src/BoundedQueue/Tests.antt =====
-- Runs of the queue, and instances of its theorems.
use lowlat_stream.Base.{
  ℕ, ◌⊎◌, ◌≡◌, refl, true, false, some, none, List, [], ◌∷◌, length, replicate, arith,
}
use lowlat_stream.BoundedQueue.{
  init, enqueue_locked, may_push, may_pop, push, try_push, drop_front, force_push, take_front, pop,
  pop_for, close,
}
use lowlat_stream.BoundedQueue.Fifo.{
  Call, History, pushes, tries, forces, pops, pops_for, closes, call, run, begin, IsFifo,
  run-IsFifo,
}
use lowlat_stream.BoundedQueue.Close.{close_drains}
use lowlat_stream.BoundedQueue.Peak.{IsBounded, run-IsBounded}
use lowlat_stream.BoundedQueue.Monitor.{
  no_threads, sleep, leave, owe_one, notify_one, Monitor, Reach, start, pop_waits, push_ends,
  not_empty_one, not_full_one, pop_ends, here, next,
}
use lowlat_stream.BoundedQueue.Wakeup.{no_thread_sleeps_in_vain}

abbrev calls : List (Call ℕ)
calls = pushes 1 ∷ tries 2 ∷ tries 3 ∷ forces 4 ∷ pops ∷ closes ∷ pushes 5 ∷ pops_for true ∷ []

accepted_run : (run calls (begin 2)).accepted ≡ 1 ∷ 2 ∷ 4 ∷ []
unfolding run call push try_push force_push may_push may_pop enqueue_locked drop_front pop pop_for
    take_front close
accepted_run = refl

taken_run : (run calls (begin 2)).taken ≡ 2 ∷ 4 ∷ []
unfolding run call push try_push force_push may_push may_pop enqueue_locked drop_front pop pop_for
    take_front close
taken_run = refl

run-IsFifo_example : IsFifo (run calls (begin 2))
run-IsFifo_example = run-IsFifo 2 calls

run-IsBounded_example : IsBounded 2 (run calls (begin 2)).queue
run-IsBounded_example = run-IsBounded 2 calls (omega arith)

abbrev two : History ℕ
two = record {
  queue = record { items = 7 ∷ 8 ∷ []; cap = 3; peak = 2; dropped = 0; closed = false };
  accepted = 6 ∷ 7 ∷ 8 ∷ [];
  taken = 6 ∷ [];
}

close_drains_example :
    let c = call closes two in
    let d = run (replicate 2 pops) c in
    (push 9 c.queue ≡ some (false, c.queue))
    × (try_push 9 c.queue ≡ (false, c.queue))
    × (force_push 9 c.queue ≡ (false, c.queue))
    × (d.taken ≡ 6 ∷ 7 ∷ 8 ∷ [])
    × (pop d.queue ≡ some (none, d.queue))
close_drains_example = close_drains 9 two

-- A consumer sleeps, an element comes, the consumer is woken and takes it, and another one sleeps.
abbrev asleep : Monitor ℕ
asleep = record {
  queue = init 1;
  not_full = no_threads;
  not_empty = record { waiting = 1; woken = 0; one = 0; all = 0 };
}

abbrev fed : Monitor ℕ
fed = record asleep {
  queue = record { items = 4 ∷ []; cap = 1; peak = 1; dropped = 0; closed = false };
  not_empty = record { waiting = 1; woken = 0; one = 1; all = 0 };
}

abbrev woken : Monitor ℕ
woken = record fed { not_empty = record { waiting = 0; woken = 1; one = 0; all = 0 } }

abbrev served : Monitor ℕ
served = record woken {
  queue = record { items = []; cap = 1; peak = 1; dropped = 0; closed = false };
  not_empty = no_threads;
  not_full = record { waiting = 0; woken = 0; one = 1; all = 0 };
}

abbrev settled : Monitor ℕ
settled = record served {
  not_empty = record { waiting = 1; woken = 0; one = 0; all = 0 };
  not_full = no_threads;
}

way : Reach (start 1) settled
unfolding push pop pop_for may_push may_pop enqueue_locked take_front sleep leave owe_one notify_one
way =
    next
      (next
        (next
          (next (next (next here (pop_waits false tt refl refl)) (push_ends 4 false _ tt refl refl))
            (not_empty_one (omega arith) refl))
          (pop_ends 4 true false _ (omega arith) refl refl))
        (not_full_one (omega arith) refl))
      (pop_waits false tt refl refl)

no_thread_sleeps_in_vain_example :
    ((settled.not_empty.waiting ≡ 0) ⊎ ((length settled.queue.items ≡ 0) × (false ≡ false)))
    × ((settled.not_full.waiting ≡ 0) ⊎ ((length settled.queue.items ≡ 1) × (false ≡ false)))
no_thread_sleeps_in_vain_example =
    no_thread_sleeps_in_vain 1 settled (omega arith) way (refl, refl, refl) (refl, refl, refl)
