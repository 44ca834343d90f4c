-- ===== src/BoundedQueue/Wakeup.antt =====
-- common/BoundedQueue.h: no thread sleeps on while there is something for it to do.
use lowlat_stream.Base.{
  ℕ, suc, ◌+◌, ◌≤◌, ◌<◌, ◌≡◌, refl, sym, ap, subst, ◌∙◌, Bool, true, false, ◌⊎◌, inl, inr, length,
  arith,
}
use lowlat_stream.BoundedQueue.{BoundedQueue, close, clear}
use lowlat_stream.BoundedQueue.Monitor.{
  Condition, sleep, leave, owe_one, owe_all, notify_one, notify_all, wake_alone, Monitor, resume,
  IsThere, Step, Reach, start, push_waits, push_ends, push_fails, try_push_ends, try_push_fails,
  force_push_ends, force_push_fails, pop_waits, pop_ends, pop_fails, close_runs, clear_runs,
  not_full_one, not_empty_one, not_full_all, not_empty_all, producer_wakes, consumer_wakes, here,
  next,
}
use lowlat_stream.BoundedQueue.Bounds
use lowlat_stream.BoundedQueue.Bounds.{Grows, Forces, Shrinks}

-- Either nobody sleeps, or all are about to be woken, or the single notifications on their way and
-- the threads woken that have not looked yet make up what `k` lacks of `n`.
abbrev pub IsTold : Condition → ℕ → ℕ → Type 0
IsTold c n k = (c.waiting ≡ 0) ⊎ ((0 < c.all) ⊎ (n ≤ k + c.one + c.woken))

abbrev pub IsOver : Condition → Type 0
IsOver c = (c.waiting ≡ 0) ⊎ (0 < c.all)

-- The same, and after closing it is the first or the second.
abbrev pub IsServed : Bool → Condition → ℕ → ℕ → Type 0
IsServed closed c n k = IsTold c n k × (closed ≡ true → IsOver c)

-- Every element is announced to the consumers, every free place to the producers, and closing to both.
pub record IsAwake {T : Type 0} (m : Monitor T) : Type 0 where
  pub elements : IsServed m.queue.closed m.not_empty (length m.queue.items) 0
  pub places : IsServed m.queue.closed m.not_full m.queue.cap (length m.queue.items)
  pub within : length m.queue.items ≤ m.queue.cap
  pub has_room : 0 < m.queue.cap

module _ (z : Bool) (c : Condition) (n k : ℕ) where
  -- A thread that sleeps has seen that there is nothing for it.
  sleep-IsServed : (b : Bool) → z ≡ false → n ≤ k → IsServed z (sleep (resume b c)) n k
  unfolding sleep
  sleep-IsServed b e h = (inr (inr (omega arith)), λ t. ground arith)

  -- A woken thread leaves after it has used up one thing.
  resume-IsServed : (b : Bool) → IsThere b c → IsServed z c n k → IsServed z (resume b c) n (suc k)
  unfolding leave
  resume-IsServed true t h = ground arith
  resume-IsServed false t h = ground arith

  owe_one-IsServed :
      (n' k' : ℕ) → n' + k ≤ suc (n + k') → IsServed z c n k → IsServed z (owe_one c) n' k'
  unfolding owe_one
  owe_one-IsServed n' k' l h = ground arith

  owe_all-IsServed : (y : Bool) → IsServed y (owe_all c) n k
  unfolding owe_all
  owe_all-IsServed y = (inr (inl (omega arith)), λ _. inr (omega arith))

  notify_one-IsServed : 0 < c.one → IsServed z c n k → IsServed z (notify_one c) n k
  unfolding notify_one
  notify_one-IsServed t h = ground arith

  notify_all-IsServed : IsServed z (notify_all c) n k
  unfolding notify_all
  notify_all-IsServed = (inl refl, λ _. inl refl)

  wake_alone-IsServed : 0 < c.waiting → IsServed z c n k → IsServed z (wake_alone c) n k
  unfolding wake_alone
  wake_alone-IsServed t h = ground arith

  -- What a thread finds can only become less.
  less-IsServed : (n' k' : ℕ) → n' + k ≤ n + k' → IsServed z c n k → IsServed z c n' k'
  less-IsServed n' k' l h = ground arith

  -- A woken thread may leave at once when nothing is left for it, or all are told to go.
  idle-IsServed : (b : Bool) → n ≤ k → IsServed z c n k → IsServed z (resume b c) n k
  unfolding leave
  idle-IsServed true l h = ground arith
  idle-IsServed false l h = ground arith

  over-IsServed : (b : Bool) → z ≡ true → IsServed z c n k → IsServed z (resume b c) n k
  unfolding leave
  over-IsServed true l h = ground arith
  over-IsServed false l h = ground arith

module _ {T : Type 0} (m : Monitor T) (v : IsAwake m) where
  -- The two conditions change, or one of them, and the queue does not.
  still-IsAwake :
      (f e : Condition)
      → IsServed m.queue.closed f m.queue.cap (length m.queue.items)
      → IsServed m.queue.closed e (length m.queue.items) 0
      → IsAwake (record m { not_full = f; not_empty = e })
  still-IsAwake f e p l = record {
    elements = l;
    places = p;
    within = v.within;
    has_room = v.has_room;
  }

  Grows-IsAwake :
      (f : Condition) (q : BoundedQueue T)
      → Grows m.queue q × (length m.queue.items < m.queue.cap)
      → IsServed m.queue.closed f m.queue.cap (suc (length m.queue.items))
      → IsAwake (record m { queue = q; not_full = f; not_empty = owe_one m.not_empty })
  Grows-IsAwake f q (g, l) p = record {
    elements =
        rw (g.same_closed, g.one_more) (owe_one-IsServed _ _ _ 0 _ 0 (omega arith) v.elements);
    places = rw (g.same_closed, g.same_cap, g.one_more) p;
    within = rw (g.same_cap, g.one_more) (omega arith);
    has_room = rw g.same_cap v.has_room;
  }

  Forces-IsAwake :
      (q : BoundedQueue T)
      → Forces m.queue q
      → IsAwake (record m { queue = q; not_empty = owe_one m.not_empty })
  Forces-IsAwake q g = record {
    elements =
        rw g.same_closed (owe_one-IsServed _ _ _ 0 _ 0 (omega (arith, g.no_longer)) v.elements);
    places =
        rw (g.same_closed, g.same_cap)
          (less-IsServed _ _ _ _ _ _ (omega (arith, g.no_shorter)) v.places);
    within = g.within v.has_room v.within;
    has_room = rw g.same_cap v.has_room;
  }

  Shrinks-IsAwake :
      (b : Bool) (q : BoundedQueue T)
      → IsThere b m.not_empty
      → Shrinks m.queue q
      → IsAwake
          (record m { queue = q; not_empty = resume b m.not_empty; not_full = owe_one m.not_full })
  Shrinks-IsAwake b q t g = record {
    elements = rw g.same_closed (
        less-IsServed _ _ _ _ _ _ (omega (arith, g.one_less))
          (resume-IsServed _ _ _ 0 b t v.elements));
    places =
        rw (g.same_closed, g.same_cap)
          (owe_one-IsServed _ _ _ _ _ _ (omega (arith, g.one_less)) v.places);
    within = rw g.same_cap (omega (arith, g.one_less, v.within));
    has_room = rw g.same_cap v.has_room;
  }

  close-IsAwake : IsAwake (record m {
    queue = close m.queue;
    not_full = owe_all m.not_full;
    not_empty = owe_all m.not_empty;
  })
  unfolding close
  close-IsAwake = record {
    elements = owe_all-IsServed true m.not_empty (length m.queue.items) 0 true;
    places = owe_all-IsServed true m.not_full m.queue.cap (length m.queue.items) true;
    within = v.within;
    has_room = v.has_room;
  }

  clear-IsAwake : IsAwake (record m { queue = clear m.queue; not_full = owe_all m.not_full })
  unfolding clear
  clear-IsAwake = record {
    elements =
        less-IsServed m.queue.closed m.not_empty (length m.queue.items) 0 0 0 (omega arith)
          v.elements;
    places = owe_all-IsServed m.queue.closed m.not_full m.queue.cap 0 m.queue.closed;
    within = omega arith;
    has_room = v.has_room;
  }

Step-IsAwake : {T : Type 0} {m n : Monitor T} → Step m n → IsAwake m → IsAwake n
Step-IsAwake {m = m} (push_waits x b t h e) v =
    let (full, is_open) = Bounds.push_waits x m.queue h in
    subst IsAwake (sym e) (still-IsAwake m v _ _ (sleep-IsServed _ _ _ _ b is_open full) v.elements)
Step-IsAwake {m = m} (push_ends x b q t h e) v =
    subst IsAwake (sym e) (
      Grows-IsAwake m v _ q (Bounds.push-Grows x m.queue q h)
        (resume-IsServed _ _ _ _ b t v.places))
Step-IsAwake {m = m} (push_fails x b q t h e) v =
    let (same, shut) = Bounds.push_fails x m.queue q h in
    subst IsAwake (ap (λ r. record m { queue = r; not_full = resume b m.not_full }) same ∙ sym e)
      (still-IsAwake m v _ _ (over-IsServed _ _ _ _ b shut v.places) v.elements)
Step-IsAwake {m = m} (try_push_ends x q h e) v =
    let g = Bounds.try_push-Grows x m.queue q h in
    subst IsAwake (sym e)
      (Grows-IsAwake m v _ q g (less-IsServed _ _ _ _ _ _ (omega arith) v.places))
Step-IsAwake {m = m} (try_push_fails x q h e) v =
    subst IsAwake (ap (λ r. record m { queue = r }) (Bounds.try_push_fails x m.queue q h) ∙ sym e) v
Step-IsAwake {m = m} (force_push_ends x q h e) v =
    subst IsAwake (sym e) (Forces-IsAwake m v q (Bounds.force_push-Forces x m.queue q h))
Step-IsAwake {m = m} (force_push_fails x q h e) v =
    subst IsAwake (ap (λ r. record m { queue = r }) (Bounds.force_push_fails x m.queue q h) ∙ sym e)
      v
Step-IsAwake {m = m} (pop_waits b t h e) v =
    let (none_left, is_open) = Bounds.pop_waits m.queue h in
    subst IsAwake (sym e) (
      still-IsAwake m v _ _ v.places
        (sleep-IsServed _ _ _ _ b is_open (rw none_left (omega arith))))
Step-IsAwake {m = m} (pop_ends x b late q t h e) v =
    subst IsAwake (sym e) (Shrinks-IsAwake m v b q t (Bounds.pop_for-Shrinks x late m.queue q h))
Step-IsAwake {m = m} (pop_fails b late q t h e) v =
    let (same, none_left) = Bounds.pop_for_fails late m.queue q h in
    subst IsAwake (ap (λ r. record m { queue = r; not_empty = resume b m.not_empty }) same ∙ sym e)
      (still-IsAwake m v _ _ v.places
        (idle-IsServed _ _ _ _ b (rw none_left (omega arith)) v.elements))
Step-IsAwake {m = m} (close_runs e) v = subst IsAwake (sym e) (close-IsAwake m v)
Step-IsAwake {m = m} (clear_runs e) v = subst IsAwake (sym e) (clear-IsAwake m v)
Step-IsAwake {m = m} (not_full_one t e) v =
    subst IsAwake (sym e)
      (still-IsAwake m v _ _ (notify_one-IsServed _ _ _ _ t v.places) v.elements)
Step-IsAwake {m = m} (not_empty_one t e) v =
    subst IsAwake (sym e)
      (still-IsAwake m v _ _ v.places (notify_one-IsServed _ _ _ _ t v.elements))
Step-IsAwake {m = m} (not_full_all t e) v =
    subst IsAwake (sym e) (still-IsAwake m v _ _ (notify_all-IsServed _ _ _ _) v.elements)
Step-IsAwake {m = m} (not_empty_all t e) v =
    subst IsAwake (sym e) (still-IsAwake m v _ _ v.places (notify_all-IsServed _ _ _ _))
Step-IsAwake {m = m} (producer_wakes t e) v =
    subst IsAwake (sym e)
      (still-IsAwake m v _ _ (wake_alone-IsServed _ _ _ _ t v.places) v.elements)
Step-IsAwake {m = m} (consumer_wakes t e) v =
    subst IsAwake (sym e)
      (still-IsAwake m v _ _ v.places (wake_alone-IsServed _ _ _ _ t v.elements))

Reach-IsAwake : {T : Type 0} {m n : Monitor T} → Reach m n → IsAwake m → IsAwake n
Reach-IsAwake here v = v
Reach-IsAwake (next r s) v = Step-IsAwake s (Reach-IsAwake r v)

start-IsAwake : {T : Type 0} (n : ℕ) → 0 < n → IsAwake {T = T} (start n)
start-IsAwake n h = record {
  elements = (inl refl, λ _. inl refl);
  places = (inl refl, λ _. inl refl);
  within = omega arith;
  has_room = h;
}

-- Nothing is on its way and no woken thread is still to look.
abbrev pub IsQuiet : Condition → Type 0
IsQuiet c = (c.one ≡ 0) × (c.all ≡ 0) × (c.woken ≡ 0)

-- A sleeping thread has a reason: in a queue that has only been used through its operations, by any
-- number of threads in any order, once all notifications have arrived and the woken threads have
-- looked, a consumer sleeps only if the queue is empty, a producer only if it is full, and after
-- close() nobody does.
pub no_thread_sleeps_in_vain :
    {T : Type 0} (n : ℕ) (m : Monitor T)
    → 0 < n
    → Reach (start n) m
    → IsQuiet m.not_empty
    → IsQuiet m.not_full
    → ((m.not_empty.waiting ≡ 0) ⊎ ((length m.queue.items ≡ 0) × (m.queue.closed ≡ false)))
      × ((m.not_full.waiting ≡ 0)
          ⊎ ((length m.queue.items ≡ m.queue.cap) × (m.queue.closed ≡ false)))
no_thread_sleeps_in_vain n m h r e f =
    let v = Reach-IsAwake r (start-IsAwake n h) in
    (ground (arith, v.elements), ground (arith, v.places, v.within))
