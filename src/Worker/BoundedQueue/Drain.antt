-- ===== src/Worker/BoundedQueue/Drain.antt =====
-- A consumer's loop of pops on `BoundedQueue<T>` of include/kvstore/worker/bounded_queue.hpp, as
-- src/worker/worker_pool.cpp runs it.
use cpp_kv_store.Base.{
  ℕ, zero, suc, Bool, true, Option, none, some, List, [], ◌∷◌, length, ◌≡◌, refl, ap,
}
use cpp_kv_store.Worker.BoundedQueue.{BoundedQueue, PopStatus, pop, pop_items, close}

module _ {T : Type 0} where
  -- Up to so many pops, until one does not return an item: the items, and how the last pop ended,
  -- which is `none` where it waits or where no pop is left.
  unfoldable pub pop_all : Bool → ℕ → BoundedQueue T → List T × Option (PopStatus T)
  pop_all stop zero q = ([], none)
  pop_all stop (suc pops) q = elim (pop stop q) [
    | none ↦ ([], none)
    | some (PopStatus.ok item, q') ↦
        let (items, last) = pop_all stop pops q' in (item ∷ items, last)
    | some (PopStatus.closed, q') ↦ ([], some PopStatus.closed)
    | some (PopStatus.stopped, q') ↦ ([], some PopStatus.stopped)
  ]

  drain :
      (stop : Bool) (items : List T) (capacity : ℕ)
      → pop_all stop
          (suc (length items))
          (record { items = items; capacity = capacity; is_closed = true })
        ≡ (items, some PopStatus.closed)
  unfolding pop_all pop pop_items
  drain stop [] capacity = refl
  drain stop (item ∷ items) capacity =
      ap (λ (r : List T × Option (PopStatus T)). (item ∷ r.0, r.1)) (drain stop items capacity)

  -- After close a consumer never waits: it gets every item that is left, in their order, and then
  -- the closed status, whether or not a stop is requested.
  pub pop_all-close :
      (stop : Bool) (q : BoundedQueue T)
      → pop_all stop (suc (length q.items)) (close q) ≡ (q.items, some PopStatus.closed)
  unfolding close
  pop_all-close stop q = drain stop q.items q.capacity
