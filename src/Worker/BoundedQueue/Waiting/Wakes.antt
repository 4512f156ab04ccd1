-- ===== src/Worker/BoundedQueue/Waiting/Wakes.antt =====
-- No wakeup is lost by the queue of include/kvstore/worker/bounded_queue.hpp.
use cpp_kv_store.Base.{
  ℕ, suc, ◌+◌, ◌≤◌, ◌<◌, Bool, false, Option, none, some, List, [], ◌∷◌, length, length-append, ◌≡◌,
  ◌⊎◌, inl, inr, refl, ap, arith,
}
use cpp_kv_store.Worker.BoundedQueue.{
  BoundedQueue, PushStatus, PopStatus, try_push, push, pop, pop_items, try_pop, try_pop_items,
  close,
}
use cpp_kv_store.Worker.BoundedQueue.Waiting.{
  Waiting, unused_queue, after_push, after_pop, after_try_pop, after_close, WaitStep, calls_pop,
  pops, pop_sleeps, calls_push, pushes, push_sleeps, tries_push, tries_pop, closes, pop_wakes,
  push_wakes, notifies_pop, notifies_no_pop, notifies_push, notifies_no_push, notifies_all_pop,
  notifies_all_push, WaitRun, not_used, then_wait,
}

module _ {T : Type 0} where
  -- A thread sleeps in pop only if each item that is left has a thread that will look for it, or a
  -- notify_one that will wake one; and in push only if each place has; and in a closed queue only
  -- until the notify_all.
  pub record IsWoken (w : Waiting T) : Type 0 where
    pub pops :
        (w.asleep_pop ≡ 0)
        ⊎ ((0 < w.notify_all_not_empty)
            ⊎ ((w.queue.is_closed ≡ false)
                × (length w.queue.items ≤ w.testing_pop + w.notify_not_empty)))
    pub pushes :
        (w.asleep_push ≡ 0)
        ⊎ ((0 < w.notify_all_not_full)
            ⊎ ((w.queue.is_closed ≡ false)
                × (w.queue.capacity ≤ length w.queue.items + w.testing_push + w.notify_not_full)))

  popped-IsWoken :
      (stop : Bool) (n : ℕ) (items : List T) (r : PopStatus T × BoundedQueue T) (w : Waiting T)
      → items ≡ w.queue.items
      → w.testing_pop ≡ suc n
      → pop_items stop items w.queue ≡ some r
      → IsWoken w
      → IsWoken (after_pop r (record w { testing_pop = n }))
  unfolding pop_items after_pop
  popped-IsWoken stop n [] (PopStatus.ok x, queue) w same e h k = ground arith
  popped-IsWoken stop n [] (PopStatus.closed, queue) w same e h k =
      let size = ap length same in record { pops = ground arith; pushes = ground arith }
  popped-IsWoken stop n [] (PopStatus.stopped, queue) w same e h k =
      let size = ap length same in record { pops = ground arith; pushes = ground arith }
  popped-IsWoken stop n (item ∷ items) (PopStatus.ok x, queue) w same e h k =
      let size = ap length same in record { pops = ground arith; pushes = ground arith }
  popped-IsWoken stop n (item ∷ items) (PopStatus.closed, queue) w same e h k = ground arith
  popped-IsWoken stop n (item ∷ items) (PopStatus.stopped, queue) w same e h k = ground arith

  pushed-IsWoken :
      (item : T) (n : ℕ) (r : PushStatus × BoundedQueue T) (w : Waiting T)
      → w.testing_push ≡ suc n
      → push item w.queue ≡ some r
      → IsWoken w
      → IsWoken (after_push r (record w { testing_push = n }))
  unfolding push after_push
  pushed-IsWoken item n (PushStatus.ok, queue) w e h k =
      let size = length-append w.queue.items (item ∷ []) in
      record { pops = ground arith; pushes = ground arith }
  pushed-IsWoken item n (PushStatus.full, queue) w e h k = ground arith
  pushed-IsWoken item n (PushStatus.closed, queue) w e h k = record {
    pops = ground arith;
    pushes = ground arith;
  }

  tried_push-IsWoken :
      (item : T) (r : PushStatus × BoundedQueue T) (w : Waiting T)
      → try_push item w.queue ≡ r
      → IsWoken w
      → IsWoken (after_push r w)
  unfolding try_push after_push
  tried_push-IsWoken item (PushStatus.ok, queue) w h k =
      let size = length-append w.queue.items (item ∷ []) in
      record { pops = ground arith; pushes = ground arith }
  tried_push-IsWoken item (PushStatus.full, queue) w h k = record {
    pops = ground arith;
    pushes = ground arith;
  }
  tried_push-IsWoken item (PushStatus.closed, queue) w h k = record {
    pops = ground arith;
    pushes = ground arith;
  }

  tried_pop-IsWoken :
      (items : List T) (r : Option T × BoundedQueue T) (w : Waiting T)
      → items ≡ w.queue.items
      → try_pop_items items w.queue ≡ r
      → IsWoken w
      → IsWoken (after_try_pop r w)
  unfolding try_pop_items after_try_pop
  tried_pop-IsWoken [] (none, queue) w same h k = record {
    pops = ground arith;
    pushes = ground arith;
  }
  tried_pop-IsWoken [] (some x, queue) w same h k = ground arith
  tried_pop-IsWoken (item ∷ items) (none, queue) w same h k = ground arith
  tried_pop-IsWoken (item ∷ items) (some x, queue) w same h k =
      let size = ap length same in record { pops = ground arith; pushes = ground arith }

  slept_pop-IsWoken :
      (n : ℕ) (items : List T) (w : Waiting T)
      → items ≡ w.queue.items
      → w.testing_pop ≡ suc n
      → pop_items false items w.queue ≡ none
      → IsWoken w
      → IsWoken (record w { testing_pop = n; asleep_pop = suc w.asleep_pop })
  unfolding pop_items
  slept_pop-IsWoken n [] w same e h k =
      let size = ap length same in record { pops = ground arith; pushes = k.pushes }
  slept_pop-IsWoken n (item ∷ items) w same e h k = ground arith

  slept_push-IsWoken :
      (item : T) (n : ℕ) (w : Waiting T)
      → w.testing_push ≡ suc n
      → push item w.queue ≡ none
      → IsWoken w
      → IsWoken (record w { testing_push = n; asleep_push = suc w.asleep_push })
  unfolding push
  slept_push-IsWoken item n w e h k = record { pops = k.pops; pushes = ground arith }

  WaitStep-IsWoken : (w to : Waiting T) → WaitStep w to → IsWoken w → IsWoken to
  unfolding pop try_pop after_close close
  WaitStep-IsWoken w _ calls_pop k = record { pops = ground arith; pushes = k.pushes }
  WaitStep-IsWoken w _ (pops stop n r e h) k = popped-IsWoken stop n w.queue.items r w refl e h k
  WaitStep-IsWoken w _ (pop_sleeps n e h) k = slept_pop-IsWoken n w.queue.items w refl e h k
  WaitStep-IsWoken w _ calls_push k = record { pops = k.pops; pushes = ground arith }
  WaitStep-IsWoken w _ (pushes item n r e h) k = pushed-IsWoken item n r w e h k
  WaitStep-IsWoken w _ (push_sleeps item n e h) k = slept_push-IsWoken item n w e h k
  WaitStep-IsWoken w _ (tries_push item) k = tried_push-IsWoken item _ w refl k
  WaitStep-IsWoken w _ tries_pop k = tried_pop-IsWoken w.queue.items _ w refl refl k
  WaitStep-IsWoken w _ closes k = record {
    pops = inr (inl (omega arith));
    pushes = inr (inl (omega arith));
  }
  WaitStep-IsWoken w _ (pop_wakes n e) k = record { pops = ground arith; pushes = k.pushes }
  WaitStep-IsWoken w _ (push_wakes n e) k = record { pops = k.pops; pushes = ground arith }
  WaitStep-IsWoken w _ (notifies_pop i n e h) k = record { pops = ground arith; pushes = k.pushes }
  WaitStep-IsWoken w _ (notifies_no_pop i e h) k = record { pops = inl h; pushes = k.pushes }
  WaitStep-IsWoken w _ (notifies_push i n e h) k = record { pops = k.pops; pushes = ground arith }
  WaitStep-IsWoken w _ (notifies_no_push i e h) k = record { pops = k.pops; pushes = inl h }
  WaitStep-IsWoken w _ (notifies_all_pop i e) k = record { pops = inl refl; pushes = k.pushes }
  WaitStep-IsWoken w _ (notifies_all_push i e) k = record { pops = k.pops; pushes = inl refl }

  WaitRun-IsWoken :
      (queue : BoundedQueue T) (w : Waiting T) → WaitRun (unused_queue queue) w → IsWoken w
  WaitRun-IsWoken queue _ not_used = record { pops = inl refl; pushes = inl refl }
  WaitRun-IsWoken queue w (then_wait {middle = middle} run step) =
      WaitStep-IsWoken middle w step (WaitRun-IsWoken queue middle run)

  -- However many threads call the operations of a queue, and in whatever order they make their steps:
  -- when no thread tests its predicate and no notification is still to be made, a thread sleeps in pop
  -- only if the queue is open and empty, and in push only if the queue is open and full.
  pub WaitRun-awake :
      (queue : BoundedQueue T) (w : Waiting T)
      → WaitRun (unused_queue queue) w
      → w.testing_pop + w.notify_not_empty + w.notify_all_not_empty ≡ 0
      → w.testing_push + w.notify_not_full + w.notify_all_not_full ≡ 0
      → ((w.asleep_pop ≡ 0) ⊎ ((w.queue.is_closed ≡ false) × (length w.queue.items ≡ 0)))
        × ((w.asleep_push ≡ 0)
            ⊎ ((w.queue.is_closed ≡ false) × (w.queue.capacity ≤ length w.queue.items)))
  WaitRun-awake queue w run no_pop no_push =
      let k = WaitRun-IsWoken queue w run in (ground arith, ground arith)
