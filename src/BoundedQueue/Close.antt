-- ===== src/BoundedQueue/Close.antt =====
-- common/BoundedQueue.h: what close() leaves to the consumers, and the high-water mark.
use lowlat_stream.Base.{
  ◌≡◌, refl, sym, ap, ◌∙◌, true, false, none, some, List, [], ◌∷◌, ◌++◌, length, append_nil,
  append_assoc, replicate, arith,
}
use lowlat_stream.BoundedQueue.{
  BoundedQueue, may_push, may_pop, push, try_push, force_push, take_front, pop, close,
}
use lowlat_stream.BoundedQueue.Fifo.{History, pops, closes, call, run}

module _ {T : Type 0} where
  pop_next :
      (x : T) (xs : List T) (h : History T)
      → h.queue.items ≡ x ∷ xs
      → let c = call pops h in
        (c.queue.items ≡ xs) × (c.queue.closed ≡ h.queue.closed) × (c.taken ≡ h.taken ++ (x ∷ []))
  unfolding call pop may_pop take_front
  pop_next x xs h e = ground arith

  drained :
      (xs : List T) (h : History T)
      → h.queue.items ≡ xs
      → let d = run (replicate (length xs) pops) h in
        (d.queue.items ≡ []) × (d.queue.closed ≡ h.queue.closed) × (d.taken ≡ h.taken ++ xs)
  unfolding run
  drained [] h e = (e, refl, sym (append_nil h.taken))
  drained (x ∷ xs) h e =
      let (a, b, c) = pop_next x xs h e in
      let (i, j, k) = drained xs (call pops h) a in
      (i, j ∙ b, k ∙ ap (λ l. l ++ xs) c ∙ append_assoc h.taken (x ∷ []) xs)

  pop_end : (q : BoundedQueue T) → q.items ≡ [] → q.closed ≡ true → pop q ≡ some (none, q)
  unfolding pop may_pop take_front
  pop_end q e c = ground arith

  -- After close() nothing can be put in any more, and the consumers still get all that is inside, in
  -- order: as many pops as there are elements hand them out, and the pop after that reports the end.
  pub close_drains :
      (x : T) (h : History T)
      → let c = call closes h in
        let d = run (replicate (length h.queue.items) pops) c in
        (push x c.queue ≡ some (false, c.queue))
        × (try_push x c.queue ≡ (false, c.queue))
        × (force_push x c.queue ≡ (false, c.queue))
        × (d.taken ≡ h.taken ++ h.queue.items)
        × (pop d.queue ≡ some (none, d.queue))
  unfolding call close push may_push try_push force_push pop may_pop take_front
  close_drains x h =
      let (i, j, k) = drained h.queue.items (call closes h) refl in
      (ground arith, refl, refl, k, pop_end _ i j)
