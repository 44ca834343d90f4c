-- ===== src/BoundedQueue/Bounds.antt =====
-- common/BoundedQueue.h: what each operation does to the number of elements.
use lowlat_stream.Base.{
  suc, ◌-◌, ◌≤◌, ◌<◌, ◌≡◌, Bool, true, false, none, some, List, [], ◌∷◌, refl, length,
  length-append, arith,
}
use lowlat_stream.BoundedQueue.{
  BoundedQueue, enqueue_locked, may_push, may_pop, push, try_push, drop_front, force_push,
  take_front, pop, pop_for,
}

module _ {T : Type 0} where
  -- One more element, in a queue that is not closed.
  pub record Grows (q : BoundedQueue T) (r : BoundedQueue T) : Type 0 where
    pub one_more : length r.items ≡ suc (length q.items)
    pub same_cap : r.cap ≡ q.cap
    pub same_closed : r.closed ≡ q.closed
    pub is_not_closed : q.closed ≡ false

  pub push-Grows :
      (x : T) (q r : BoundedQueue T)
      → push x q ≡ some (true, r)
      → Grows q r × (length q.items < q.cap)
  unfolding push may_push enqueue_locked
  push-Grows x q r h = ground (arith, length-append q.items (x ∷ []))

  pub push_waits :
      (x : T) (q : BoundedQueue T) → push x q ≡ none → (q.cap ≤ length q.items) × (q.closed ≡ false)
  unfolding push may_push
  push_waits x q h = ground arith

  pub push_fails :
      (x : T) (q r : BoundedQueue T) → push x q ≡ some (false, r) → (q ≡ r) × (q.closed ≡ true)
  unfolding push may_push
  push_fails x q r h = ground arith

  pub try_push-Grows :
      (x : T) (q r : BoundedQueue T)
      → try_push x q ≡ (true, r)
      → Grows q r × (length q.items < q.cap)
  unfolding try_push enqueue_locked
  try_push-Grows x q r h = ground (arith, length-append q.items (x ∷ []))

  pub try_push_fails : (x : T) (q r : BoundedQueue T) → try_push x q ≡ (false, r) → q ≡ r
  unfolding try_push
  try_push_fails x q r h = ground arith

  -- The number of elements grows by one, or stays where the oldest one makes room.
  pub record Forces (q : BoundedQueue T) (r : BoundedQueue T) : Type 0 where
    pub no_shorter : length q.items ≤ length r.items
    pub no_longer : length r.items ≤ suc (length q.items)
    pub within : 0 < q.cap → length q.items ≤ q.cap → length r.items ≤ r.cap
    pub same_cap : r.cap ≡ q.cap
    pub same_closed : r.closed ≡ q.closed
    pub is_not_closed : q.closed ≡ false
    pub when_short : length q.items < q.cap → length r.items ≡ suc (length q.items)

  length-drop_front :
      (q : BoundedQueue T) (xs : List T)
      → q.items ≡ xs
      → length (drop_front q xs).items ≡ length xs - 1
  unfolding drop_front
  length-drop_front q [] e = rw e (omega arith)
  length-drop_front q (x ∷ xs) e = omega arith

  drop_front-rest :
      (q : BoundedQueue T) (xs : List T)
      → ((drop_front q xs).cap ≡ q.cap) × ((drop_front q xs).closed ≡ q.closed)
  unfolding drop_front
  drop_front-rest q [] = (refl, refl)
  drop_front-rest q (x ∷ xs) = (refl, refl)

  length-enqueue_locked :
      (x : T) (q : BoundedQueue T) → length (enqueue_locked x q).items ≡ suc (length q.items)
  unfolding enqueue_locked
  length-enqueue_locked x q = omega (arith, length-append q.items (x ∷ []))

  enqueue_locked-rest :
      (x : T) (q : BoundedQueue T)
      → ((enqueue_locked x q).cap ≡ q.cap) × ((enqueue_locked x q).closed ≡ q.closed)
  unfolding enqueue_locked
  enqueue_locked-rest x q = (refl, refl)

  pub force_push-Forces : (x : T) (q r : BoundedQueue T) → force_push x q ≡ (true, r) → Forces q r
  unfolding force_push
  force_push-Forces x q r h = ground (
    arith,
    length-drop_front q q.items refl,
    drop_front-rest q q.items,
    length-enqueue_locked x q,
    length-enqueue_locked x (drop_front q q.items),
    enqueue_locked-rest x q,
    enqueue_locked-rest x (drop_front q q.items),
  )

  pub force_push_fails : (x : T) (q r : BoundedQueue T) → force_push x q ≡ (false, r) → q ≡ r
  unfolding force_push
  force_push_fails x q r h = ground arith

  -- One element less.
  pub record Shrinks (q : BoundedQueue T) (r : BoundedQueue T) : Type 0 where
    pub one_less : length q.items ≡ suc (length r.items)
    pub same_cap : r.cap ≡ q.cap
    pub same_closed : r.closed ≡ q.closed

  take_front-Shrinks :
      (x : T) (q r : BoundedQueue T) (xs : List T)
      → q.items ≡ xs
      → take_front q xs ≡ (some x, r)
      → Shrinks q r
  unfolding take_front
  take_front-Shrinks x q r [] e h = ground arith
  take_front-Shrinks x q r (y ∷ ys) e h = ground arith

  pub pop_for-Shrinks :
      (x : T) (late : Bool) (q r : BoundedQueue T) → pop_for late q ≡ some (some x, r) → Shrinks q r
  unfolding pop_for may_pop
  pop_for-Shrinks x late q r h = ground (arith, take_front-Shrinks x q r q.items refl)

  pub pop_waits : (q : BoundedQueue T) → pop q ≡ none → (q.items ≡ []) × (q.closed ≡ false)
  unfolding pop may_pop
  pop_waits q h = ground arith

  take_front_fails :
      (q r : BoundedQueue T) (xs : List T)
      → q.items ≡ xs
      → take_front q xs ≡ (none, r)
      → (q ≡ r) × (q.items ≡ [])
  unfolding take_front
  take_front_fails q r [] e h = ground arith
  take_front_fails q r (y ∷ ys) e h = ground arith

  pub pop_for_fails :
      (late : Bool) (q r : BoundedQueue T)
      → pop_for late q ≡ some (none, r)
      → (q ≡ r) × (q.items ≡ [])
  unfolding pop_for may_pop
  pop_for_fails late q r h = ground (arith, take_front_fails q r q.items refl)
