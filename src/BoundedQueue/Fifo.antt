-- ===== src/BoundedQueue/Fifo.antt =====
-- common/BoundedQueue.h: a history of operations by any threads, and the abstract queue behind it: a
-- log of what has entered, with a mark that says how much of it has left.
use lowlat_stream.Base.{
  ℕ, suc, ◌+◌, ◌≡◌, refl, sym, ap, ◌∙◌, Bool, true, false, not, ltb, both, ◌||◌, Option, none, some,
  List, [], ◌∷◌, ◌++◌, length, append_assoc, append_nil, arith,
}
use lowlat_stream.BoundedQueue.{
  BoundedQueue, init, enqueue_locked, may_push, may_pop, push, try_push, drop_front, force_push,
  take_front, pop, pop_for, close, clear,
}

-- A call, as it runs once the lock is held and the wait is over.
pub data Call (T : Type 0) : Type 0 where
  pushes : T → Call T
  tries : T → Call T
  forces : T → Call T
  pops : Call T
  pops_for : Bool → Call T
  closes : Call T
  clears : Call T

-- The queue, with all that was accepted and all that was handed out, the oldest first.
pub record History (T : Type 0) : Type 0 where
  pub queue : BoundedQueue T
  pub accepted : List T
  pub taken : List T

module _ {T : Type 0} where
  abbrev pub after_put : T → History T → Bool × BoundedQueue T → History T
  after_put x h (true, q) = record h { queue = q; accepted = h.accepted ++ (x ∷ []) }
  after_put x h (false, q) = record h { queue = q }

  abbrev pub after_take : History T → Option T × BoundedQueue T → History T
  after_take h (some x, q) = record h { queue = q; taken = h.taken ++ (x ∷ []) }
  after_take h (none, q) = record h { queue = q }

  -- A call that goes on waiting changes nothing.
  abbrev pub when_over : {A : Type 0} → History T → (A → History T) → Option A → History T
  when_over h f none = h
  when_over h f (some a) = f a

  unfoldable pub call : Call T → History T → History T
  call (pushes x) h = when_over h (after_put x h) (push x h.queue)
  call (tries x) h = after_put x h (try_push x h.queue)
  call (forces x) h = after_put x h (force_push x h.queue)
  call pops h = when_over h (after_take h) (pop h.queue)
  call (pops_for late) h = when_over h (after_take h) (pop_for late h.queue)
  call closes h = record h { queue = close h.queue }
  call clears h = record h { queue = clear h.queue }

  unfoldable pub run : List (Call T) → History T → History T
  run [] h = h
  run (c ∷ cs) h = run cs (call c h)

abbrev pub begin : {T : Type 0} → ℕ → History T
begin n = record { queue = init n; accepted = []; taken = [] }

module _ {T : Type 0} where
  -- What has left, each with true if it was handed out and false if it was dropped.
  abbrev pub everything : List (Bool × T) → List T
  everything [] = []
  everything ((b, x) ∷ gs) = x ∷ everything gs

  abbrev pub handed : List (Bool × T) → List T
  handed [] = []
  handed ((true, x) ∷ gs) = x ∷ handed gs
  handed ((false, x) ∷ gs) = handed gs

  abbrev pub lost : List (Bool × T) → ℕ
  lost [] = 0
  lost ((true, x) ∷ gs) = lost gs
  lost ((false, x) ∷ gs) = suc (lost gs)

  -- What has been accepted is what has left and then what is inside, in the order of acceptance.
  pub record Log (h : History T) (gone : List (Bool × T)) : Type 0 where
    pub in_order : h.accepted ≡ everything gone ++ h.queue.items
    pub handed_out : h.taken ≡ handed gone
    pub counted : h.queue.dropped ≡ lost gone

  abbrev pub IsFifo : History T → Type 0
  IsFifo h = (gone : List (Bool × T)) × Log h gone

  everything-append :
      (gs hs : List (Bool × T)) → everything (gs ++ hs) ≡ everything gs ++ everything hs
  everything-append [] hs = refl
  everything-append ((b, x) ∷ gs) hs = ap (◌∷◌ x) (everything-append gs hs)

  handed-append : (gs hs : List (Bool × T)) → handed (gs ++ hs) ≡ handed gs ++ handed hs
  handed-append [] hs = refl
  handed-append ((true, x) ∷ gs) hs = ap (◌∷◌ x) (handed-append gs hs)
  handed-append ((false, x) ∷ gs) hs = handed-append gs hs

  lost-append : (gs hs : List (Bool × T)) → lost (gs ++ hs) ≡ lost gs + lost hs
  lost-append [] hs = omega arith
  lost-append ((true, x) ∷ gs) hs = lost-append gs hs
  lost-append ((false, x) ∷ gs) hs = omega (arith, lost-append gs hs)

  put-Log :
      (x : T) (h : History T) (gs : List (Bool × T))
      → Log h gs
      → Log (after_put x h (true, enqueue_locked x h.queue)) gs
  unfolding enqueue_locked
  put-Log x h gs v = record {
    in_order = rw (v.in_order, append_assoc (everything gs) h.queue.items (x ∷ [])) refl;
    handed_out = v.handed_out;
    counted = v.counted;
  }

  -- The front leaves, handed out or dropped.
  take-Log :
      (x : T) (xs : List T) (h : History T) (gs : List (Bool × T))
      → h.queue.items ≡ x ∷ xs
      → Log h gs
      → Log (after_take h (some x, record h.queue { items = xs })) (gs ++ ((true, x) ∷ []))
  take-Log x xs h gs e v =
      let f : everything gs ++ (x ∷ xs) ≡ everything gs ++ ((x ∷ []) ++ xs) = refl in
      record {
        in_order =
            v.in_order
            ∙ ap (λ l. everything gs ++ l) e
            ∙ f
            ∙ sym (append_assoc (everything gs) (x ∷ []) xs)
            ∙ ap (λ l. l ++ xs) (sym (everything-append gs ((true, x) ∷ [])));
        handed_out = ap (λ l. l ++ (x ∷ [])) v.handed_out ∙ sym (handed-append gs ((true, x) ∷ []));
        counted = omega (arith, v.counted, lost-append gs ((true, x) ∷ []));
      }

  drop-Log :
      (x : T) (xs : List T) (h : History T) (gs : List (Bool × T))
      → h.queue.items ≡ x ∷ xs
      → Log h gs
      → Log
          (record h { queue = record h.queue { items = xs; dropped = suc h.queue.dropped } })
          (gs ++ ((false, x) ∷ []))
  drop-Log x xs h gs e v = record {
    in_order =
        v.in_order
        ∙ ap (λ l. everything gs ++ l) e
        ∙ sym (append_assoc (everything gs) (x ∷ []) xs)
        ∙ ap (λ l. l ++ xs) (sym (everything-append gs ((false, x) ∷ [])));
    handed_out =
        v.handed_out ∙ sym (append_nil (handed gs)) ∙ sym (handed-append gs ((false, x) ∷ []));
    counted = omega (arith, v.counted, lost-append gs ((false, x) ∷ []));
  }

  drop_front-IsFifo :
      (xs : List T) (h : History T)
      → h.queue.items ≡ xs
      → IsFifo h
      → IsFifo (record h { queue = drop_front h.queue xs })
  unfolding drop_front
  drop_front-IsFifo [] h e v = v
  drop_front-IsFifo (x ∷ xs) h e (gs, v) = (gs ++ ((false, x) ∷ []), drop-Log x xs h gs e v)

  take_front-IsFifo :
      (xs : List T) (h : History T)
      → h.queue.items ≡ xs
      → IsFifo h
      → IsFifo (after_take h (take_front h.queue xs))
  unfolding take_front
  take_front-IsFifo [] h e v = v
  take_front-IsFifo (x ∷ xs) h e (gs, v) = (gs ++ ((true, x) ∷ []), take-Log x xs h gs e v)

  enter-IsFifo :
      (x : T) (h : History T) → IsFifo h → IsFifo (after_put x h (true, enqueue_locked x h.queue))
  enter-IsFifo x h (gs, v) = (gs, put-Log x h gs v)

  push-IsFifo :
      (x : T) (h : History T) → IsFifo h → IsFifo (when_over h (after_put x h) (push x h.queue))
  unfolding push
  push-IsFifo x h v =
      let P : Option (Bool × BoundedQueue T) → Type 0 =
        λ r. IsFifo (when_over h (after_put x h) r) in
      both P (not (may_push h.queue)) _ _ v (both P h.queue.closed _ _ v (enter-IsFifo x h v))

  try_push-IsFifo : (x : T) (h : History T) → IsFifo h → IsFifo (after_put x h (try_push x h.queue))
  unfolding try_push
  try_push-IsFifo x h v =
      both (λ r. IsFifo (after_put x h r))
        (h.queue.closed || not (ltb (length h.queue.items) h.queue.cap)) _ _ v (enter-IsFifo x h v)

  force_push-IsFifo :
      (x : T) (h : History T) → IsFifo h → IsFifo (after_put x h (force_push x h.queue))
  unfolding force_push
  force_push-IsFifo x h v =
      both (λ r. IsFifo (after_put x h r)) h.queue.closed _ _ v
        (both (λ q. IsFifo (after_put x h (true, enqueue_locked x q)))
          (ltb (length h.queue.items) h.queue.cap) _ _ (enter-IsFifo x h v)
          (enter-IsFifo x (record h { queue = drop_front h.queue h.queue.items })
            (drop_front-IsFifo h.queue.items h refl v)))

  pop-IsFifo : (h : History T) → IsFifo h → IsFifo (when_over h (after_take h) (pop h.queue))
  unfolding pop
  pop-IsFifo h v =
      both (λ r. IsFifo (when_over h (after_take h) r)) (may_pop h.queue) _ _
        (take_front-IsFifo h.queue.items h refl v) v

  pop_for-IsFifo :
      (late : Bool) (h : History T)
      → IsFifo h
      → IsFifo (when_over h (after_take h) (pop_for late h.queue))
  unfolding pop_for
  pop_for-IsFifo late h v =
      both (λ r. IsFifo (when_over h (after_take h) r)) (may_pop h.queue || late) _ _
        (take_front-IsFifo h.queue.items h refl v) v

  discarded : List T → List (Bool × T)
  discarded [] = []
  discarded (x ∷ xs) = (false, x) ∷ discarded xs

  discarded_lem :
      (xs : List T)
      → (everything (discarded xs) ≡ xs)
        × ((handed (discarded xs) ≡ []) × (lost (discarded xs) ≡ length xs))
  unfolding discarded
  discarded_lem [] = (refl, (refl, refl))
  discarded_lem (x ∷ xs) = let (a, (b, c)) = discarded_lem xs in (ap (◌∷◌ x) a, (b, ap suc c))

  clear-IsFifo : (h : History T) → IsFifo h → IsFifo (record h { queue = clear h.queue })
  unfolding clear
  clear-IsFifo h (gs, v) =
      let (a, (b, c)) = discarded_lem h.queue.items in
      let ds = discarded h.queue.items in
      (
        gs ++ ds,
        record {
          in_order =
              v.in_order
              ∙ ap (◌++◌ (everything gs)) (sym a)
              ∙ sym (everything-append gs ds)
              ∙ sym (append_nil (everything (gs ++ ds)));
          handed_out =
              v.handed_out
              ∙ sym (append_nil (handed gs))
              ∙ ap (◌++◌ (handed gs)) (sym b)
              ∙ sym (handed-append gs ds);
          counted = omega (arith, v.counted, lost-append gs ds);
        },
      )

  close-IsFifo : (h : History T) → IsFifo h → IsFifo (record h { queue = close h.queue })
  unfolding close
  close-IsFifo h (gs, v) =
      (gs, record { in_order = v.in_order; handed_out = v.handed_out; counted = v.counted })

  call-IsFifo : (c : Call T) (h : History T) → IsFifo h → IsFifo (call c h)
  unfolding call
  call-IsFifo (pushes x) h v = push-IsFifo x h v
  call-IsFifo (tries x) h v = try_push-IsFifo x h v
  call-IsFifo (forces x) h v = force_push-IsFifo x h v
  call-IsFifo pops h v = pop-IsFifo h v
  call-IsFifo (pops_for late) h v = pop_for-IsFifo late h v
  call-IsFifo closes h v = close-IsFifo h v
  call-IsFifo clears h v = clear-IsFifo h v

  run_from-IsFifo : (cs : List (Call T)) (h : History T) → IsFifo h → IsFifo (run cs h)
  unfolding run
  run_from-IsFifo [] h v = v
  run_from-IsFifo (c ∷ cs) h v = run_from-IsFifo cs (call c h) (call-IsFifo c h v)

  -- Whatever calls run, in whatever order: the elements accepted are, in the order in which they were
  -- accepted, those that have left followed by those inside; those handed out are the ones among
  -- the former that were not dropped, in the same order; and `dropped` counts the others.
  pub run-IsFifo : (n : ℕ) (cs : List (Call T)) → IsFifo (run cs (begin n))
  run-IsFifo n cs =
      run_from-IsFifo cs (begin n)
        ([], record { in_order = refl; handed_out = refl; counted = refl })
