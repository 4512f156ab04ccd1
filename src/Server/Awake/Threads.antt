-- ===== src/Server/Awake/Threads.antt =====
-- What a thread of src/worker/worker_pool.cpp leaves of the queues and of the eventfd, and what it
-- waits for, while no stop is requested and both queues are open.
use cpp_kv_store.Base.{
  ℕ, ◌+◌, ◌≤◌, ◌<◌, length-append, Bytes, false, none, some, List, [], ◌∷◌, ◌≡◌, ◌⊎◌, refl, sym,
  arith, length,
}
use cpp_kv_store.Storage.Time.{TimePoint}
use cpp_kv_store.Net.Wakeup.{wake}
use cpp_kv_store.Worker.BoundedQueue.{pop, pop_items, push}
use cpp_kv_store.Worker.Items.{WorkItem}
use cpp_kv_store.Worker.Pool.{
  Shared, Worker, idle, running, delivering, waking, stopped, after_pop, after_push, work,
}
use cpp_kv_store.Worker.Pool.Shutdown.{gone}
use cpp_kv_store.Server.Awake.{wakes}

pub record Tells (worker w : Worker) (shared to : Shared) : Type 0 where
  pub told :
      (0 < to.wakeups + wakes w)
      ⊎ ((to.completion_queue.items ≡ shared.completion_queue.items)
          × (to.wakeups + wakes w ≡ shared.wakeups + wakes worker))
  pub working : to.work_queue.is_closed ≡ false
  pub opened : to.completion_queue.is_closed ≡ false
  pub capacity : to.completion_queue.capacity ≡ shared.completion_queue.capacity
  pub bounded :
      length shared.completion_queue.items ≤ shared.completion_queue.capacity
      → length to.completion_queue.items ≤ to.completion_queue.capacity
  pub staying : gone w ≡ 0

wake-positive : (counter : ℕ) → 0 < wake counter
unfolding wake
wake-positive counter = ground arith

popped-Tells :
    (items : List WorkItem) (shared : Shared) (w : Worker) (to : Shared)
    → shared.work_queue.is_closed ≡ false
    → shared.completion_queue.is_closed ≡ false
    → after_pop shared (pop_items false items shared.work_queue) ≡ some (w, to)
    → Tells idle w shared to
unfolding after_pop pop_items
popped-Tells [] shared w to e o h = ground arith
popped-Tells (item ∷ items) shared w to e o h = ground arith

pub work-Tells :
    (hash : Bytes → ℕ) (now : TimePoint) (worker w : Worker) (shared to : Shared)
    → shared.work_queue.is_closed ≡ false
    → shared.completion_queue.is_closed ≡ false
    → work hash now false worker shared ≡ some (w, to)
    → Tells worker w shared to
unfolding work pop push after_push
work-Tells hash now idle w shared to e o h = popped-Tells shared.work_queue.items shared w to e o h
work-Tells hash now (running item) w shared to e o h = ground arith
work-Tells hash now (delivering c) w shared to e o h =
    ground (arith, length-append shared.completion_queue.items (c ∷ []))
work-Tells hash now waking w shared to e o h = let p = wake-positive shared.wakeups in ground arith
work-Tells hash now stopped w shared to e o h = cc

-- A thread that cannot make a step has returned, or waits for an item, or for room.
pub work-blocked :
    (hash : Bytes → ℕ) (now : TimePoint) (worker : Worker) (shared : Shared)
    → work hash now false worker shared ≡ none
    → length shared.completion_queue.items < shared.completion_queue.capacity
    → gone worker ≡ 0
    → (worker ≡ idle) × (length shared.work_queue.items ≡ 0)
unfolding work pop push after_push after_pop pop_items
work-blocked hash now idle shared h room staying = (refl, waits shared.work_queue.items refl h)
  where
    waits :
        (items : List WorkItem)
        → items ≡ shared.work_queue.items
        → after_pop shared (pop_items false items shared.work_queue) ≡ none
        → length shared.work_queue.items ≡ 0
    waits [] same h = rw (sym same) refl
    waits (item ∷ items) same h = cc
work-blocked hash now (running item) shared h room staying = cc
work-blocked hash now (delivering c) shared h room staying = ground arith
work-blocked hash now waking shared h room staying = cc
work-blocked hash now stopped shared h room staying = absurd (omega arith)

pub blocked-wakes :
    (hash : Bytes → ℕ) (now : TimePoint) (worker : Worker) (shared : Shared)
    → work hash now false worker shared ≡ none
    → wakes worker ≡ 0
unfolding work
blocked-wakes hash now idle shared h = refl
blocked-wakes hash now (running item) shared h = refl
blocked-wakes hash now (delivering c) shared h = refl
blocked-wakes hash now waking shared h = cc
blocked-wakes hash now stopped shared h = refl
