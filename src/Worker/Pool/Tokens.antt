-- ===== src/Worker/Pool/Tokens.antt =====
-- No request is lost and none is answered twice by the threads of src/worker/worker_pool.cpp: a sum
-- over the requests in the queues and with the threads stays the same.
use cpp_kv_store.Base.{ℕ, ◌+◌, Bytes, Bool, false, some, List, [], ◌∷◌, ◌≡◌, refl, ap, arith}
use cpp_kv_store.Base.Totals.{total, total-append, total-set}
use cpp_kv_store.Storage.Time.{TimePoint}
use cpp_kv_store.Worker.BoundedQueue.{pop, pop_items, push}
use cpp_kv_store.Worker.Items.{WorkItem, Completion}
use cpp_kv_store.Worker.Pool.{
  Shared, Worker, idle, running, delivering, waking, stopped, after_pop, after_push, work, Pool,
  Step, move, Run, here, then_step,
}

-- `f` weighs a request by its connection, its generation and its sequence number.
module _ (f : ℕ → ℕ → ℕ → ℕ) where
  abbrev pub of_item : WorkItem → ℕ
  of_item item = f item.connection_id item.connection_generation item.sequence

  abbrev pub of_completion : Completion → ℕ
  of_completion c = f c.connection_id c.connection_generation c.sequence

  abbrev pub of_worker : Worker → ℕ
  of_worker idle = 0
  of_worker (running item) = of_item item
  of_worker (delivering completion) = of_completion completion
  of_worker waking = 0
  of_worker stopped = 0

  abbrev pub of_queues : Shared → ℕ
  of_queues shared =
      total of_item shared.work_queue.items + total of_completion shared.completion_queue.items

  -- All requests between the event loop's push and its pop.
  abbrev pub weight : Pool → ℕ
  weight pool = of_queues pool.shared + total of_worker pool.workers

  popped-weight :
      (stop : Bool) (items : List WorkItem) (shared : Shared) (w : Worker) (to : Shared)
      → items ≡ shared.work_queue.items
      → after_pop shared (pop_items stop items shared.work_queue) ≡ some (w, to)
      → (of_queues to + of_worker w ≡ of_queues shared)
        × (to.completion_queue ≡ shared.completion_queue)
  unfolding after_pop pop_items
  popped-weight stop [] shared w to e h = ground arith
  popped-weight stop (item ∷ items) shared w to e h = let sum = ap (total of_item) e in ground arith

  pushed-weight :
      (c : Completion) (shared : Shared) (w : Worker) (to : Shared)
      → shared.completion_queue.is_closed ≡ false
      → after_push shared (push c shared.completion_queue) ≡ some (w, to)
      → (of_queues to + of_worker w ≡ of_queues shared + of_completion c)
        × (to.completion_queue.is_closed ≡ false)
  unfolding after_push push
  pushed-weight c shared w to o h =
      ground (arith, total-append of_completion shared.completion_queue.items (c ∷ []))

  work-weight :
      (hash : Bytes → ℕ) (now : TimePoint) (stop : Bool) (worker w : Worker) (shared to : Shared)
      → shared.completion_queue.is_closed ≡ false
      → work hash now stop worker shared ≡ some (w, to)
      → (of_queues to + of_worker w ≡ of_queues shared + of_worker worker)
        × (to.completion_queue.is_closed ≡ false)
  unfolding work pop
  work-weight hash now stop idle w shared to o h =
      let k = popped-weight stop shared.work_queue.items shared w to refl h in ground arith
  work-weight hash now stop (running item) w shared to o h = ground arith
  work-weight hash now stop (delivering c) w shared to o h = pushed-weight c shared w to o h
  work-weight hash now stop waking w shared to o h = ground arith
  work-weight hash now stop stopped w shared to o h = cc

  pub Step-weight :
      (hash : Bytes → ℕ) (pool to : Pool)
      → Step hash pool to
      → pool.shared.completion_queue.is_closed ≡ false
      → (weight to ≡ weight pool) × (to.shared.completion_queue.is_closed ≡ false)
  Step-weight hash pool _ (move i now stop worker shared inside h) o =
      let k = work-weight hash now stop _ worker pool.shared shared o h in
      let t = total-set of_worker pool.workers i worker stopped inside in (omega arith, k.1)

  -- While the completion queue is open, steps of the threads, in any order, at any times and whether
  -- or not a stop is requested, lose no request and duplicate none: whatever number is given to each
  -- connection, generation and sequence number, its sum over the requests in the work queue, with the
  -- threads and in the completion queue stays the same.
  pub Run-weight :
      (hash : Bytes → ℕ) (n : ℕ) (pool to : Pool)
      → Run hash n pool to
      → pool.shared.completion_queue.is_closed ≡ false
      → (weight to ≡ weight pool) × (to.shared.completion_queue.is_closed ≡ false)
  Run-weight hash _ pool _ here o = (refl, o)
  Run-weight hash _ pool to (then_step run step) o =
      let first = Run-weight hash _ pool _ run o in
      let last = Step-weight hash _ to step first.1 in (omega (arith, first.0, last.0), last.1)
