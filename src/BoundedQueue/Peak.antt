-- ===== src/BoundedQueue/Peak.antt =====
-- common/BoundedQueue.h: the number of elements, the high-water mark and the capacity.
use lowlat_stream.Base.{
  ℕ, ◌-◌, ◌≤◌, ◌<◌, ◌≡◌, refl, Bool, List, [], ◌∷◌, length, length-append, arith,
}
use lowlat_stream.BoundedQueue.{
  BoundedQueue, enqueue_locked, may_push, push, try_push, drop_front, force_push, take_front, pop,
  pop_for, close, clear,
}
use lowlat_stream.BoundedQueue.Fifo.{
  Call, History, pushes, tries, forces, pops, pops_for, closes, clears, after_put, after_take,
  when_over, call, run, begin,
}

module _ {T : Type 0} where
  pub record IsBounded (n : ℕ) (q : BoundedQueue T) : Type 0 where
    pub same_cap : q.cap ≡ n
    pub below_peak : length q.items ≤ q.peak
    pub below_cap : q.peak ≤ n

  enqueue-IsBounded :
      (n : ℕ) (x : T) (q : BoundedQueue T)
      → length q.items < n
      → IsBounded n q
      → IsBounded n (enqueue_locked x q)
  unfolding enqueue_locked
  enqueue-IsBounded n x q h v = ground (arith, length-append q.items (x ∷ []))

  drop_front-IsBounded :
      (n : ℕ) (q : BoundedQueue T) (xs : List T)
      → q.items ≡ xs
      → IsBounded n q
      → IsBounded n (drop_front q xs) × (length (drop_front q xs).items ≤ length xs - 1)
  unfolding drop_front
  drop_front-IsBounded n q [] e v = (v, rw e (omega arith))
  drop_front-IsBounded n q (x ∷ xs) e v = ground arith

  take_front-IsBounded :
      (n : ℕ) (q : BoundedQueue T) (xs : List T)
      → q.items ≡ xs
      → IsBounded n q
      → IsBounded n (take_front q xs).1
  unfolding take_front
  take_front-IsBounded n q [] e v = v
  take_front-IsBounded n q (x ∷ xs) e v = ground arith

  push-IsBounded :
      (n : ℕ) (x : T) (h : History T)
      → IsBounded n h.queue
      → IsBounded n (when_over h (after_put x h) (push x h.queue)).queue
  unfolding push may_push
  push-IsBounded n x h v = ground (arith, enqueue-IsBounded n x h.queue)

  try_push-IsBounded :
      (n : ℕ) (x : T) (h : History T)
      → IsBounded n h.queue
      → IsBounded n (after_put x h (try_push x h.queue)).queue
  unfolding try_push
  try_push-IsBounded n x h v = ground (arith, enqueue-IsBounded n x h.queue)

  force_push-IsBounded :
      (n : ℕ) (x : T) (h : History T)
      → 0 < n
      → IsBounded n h.queue
      → IsBounded n (after_put x h (force_push x h.queue)).queue
  unfolding force_push
  force_push-IsBounded n x h p v =
      let (w, l) = drop_front-IsBounded n h.queue h.queue.items refl v in
      ground (
        arith,
        enqueue-IsBounded n x h.queue,
        enqueue-IsBounded n x (drop_front h.queue h.queue.items),
      )

  pop_for-IsBounded :
      (n : ℕ) (b : Bool) (h : History T)
      → IsBounded n h.queue
      → IsBounded n (when_over h (after_take h) (pop_for b h.queue)).queue
  unfolding pop_for
  pop_for-IsBounded n b h v = ground (arith, take_front-IsBounded n h.queue h.queue.items refl v)

  pop-IsBounded :
      (n : ℕ) (h : History T)
      → IsBounded n h.queue
      → IsBounded n (when_over h (after_take h) (pop h.queue)).queue
  unfolding pop
  pop-IsBounded n h v = ground (arith, take_front-IsBounded n h.queue h.queue.items refl v)

  call-IsBounded :
      (n : ℕ) (c : Call T) (h : History T)
      → 0 < n
      → IsBounded n h.queue
      → IsBounded n (call c h).queue
  unfolding call close clear
  call-IsBounded n (pushes x) h p v = push-IsBounded n x h v
  call-IsBounded n (tries x) h p v = try_push-IsBounded n x h v
  call-IsBounded n (forces x) h p v = force_push-IsBounded n x h p v
  call-IsBounded n pops h p v = pop-IsBounded n h v
  call-IsBounded n (pops_for late) h p v = pop_for-IsBounded n late h v
  call-IsBounded n closes h p v = ground arith
  call-IsBounded n clears h p v = ground arith

  run_from-IsBounded :
      (n : ℕ) (cs : List (Call T)) (h : History T)
      → 0 < n
      → IsBounded n h.queue
      → IsBounded n (run cs h).queue
  unfolding run
  run_from-IsBounded n [] h p v = v
  run_from-IsBounded n (c ∷ cs) h p v =
      run_from-IsBounded n cs (call c h) p (call-IsBounded n c h p v)

  -- With a capacity that is not 0, whatever calls run: the number of elements is at most the
  -- high-water mark, which is at most the capacity.
  pub run-IsBounded : (n : ℕ) (cs : List (Call T)) → 0 < n → IsBounded n (run cs (begin n)).queue
  run-IsBounded n cs p = run_from-IsBounded n cs (begin n) p (ground arith)
