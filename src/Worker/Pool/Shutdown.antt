-- ===== src/Worker/Pool/Shutdown.antt =====
-- What happens in the destructor of `WorkerPool` of src/worker/worker_pool.cpp once the event loop
-- has stopped, as at the end of src/main.cpp: the work queue is closed, nobody pops the completion
-- queue, and the joins wait for every thread to return.
pub mod Joins
use cpp_kv_store.Base.{
  ℕ, ◌+◌, ◌*◌, ◌≤◌, ◌<◌, Bytes, Bool, true, false, some, List, [], ◌∷◌, length, set, ◌≡◌, refl, ap,
  ◌∙◌, arith, inl, inr, ◌⊎◌, length-append, length-set,
}
use cpp_kv_store.Base.Totals.{total, total-set}
use cpp_kv_store.Storage.Time.{TimePoint}
use cpp_kv_store.Worker.BoundedQueue.{pop, pop_items, push}
use cpp_kv_store.Worker.Items.{WorkItem}
use cpp_kv_store.Worker.Pool.{
  Shared, Worker, idle, running, delivering, waking, stopped, after_pop, after_push, work, Pool,
  Step, move, Run, here, then_step,
}
use cpp_kv_store.Worker.Pool.Tokens.{weight}

-- The steps that a thread can make without another item.
abbrev pub effort : Worker → ℕ
effort idle = 1
effort (running item) = 4
effort (delivering completion) = 3
effort waking = 2
effort stopped = 0

abbrev pub gone : Worker → ℕ
gone stopped = 1
gone _ = 0

-- The requests in the queues and with the threads.
abbrev pub load : Pool → ℕ
load = weight (λ connection generation sequence. 1)

-- A bound for the number of steps that the threads can still make.
abbrev pub steps_left : Pool → ℕ
steps_left pool = 4 * length pool.shared.work_queue.items + total effort pool.workers

-- Between closing the work queue and the end of the joins.
pub record IsDraining (pool : Pool) : Type 0 where
  pub closed : pool.shared.work_queue.is_closed ≡ true
  pub opened : pool.shared.completion_queue.is_closed ≡ false
  pub bounded : length pool.shared.completion_queue.items ≤ pool.shared.completion_queue.capacity
  pub returned : (total gone pool.workers ≡ 0) ⊎ (length pool.shared.work_queue.items ≡ 0)

-- What a thread's step does to the queues.
record Progress (worker w : Worker) (shared to : Shared) : Type 0 where
  closed : to.work_queue.is_closed ≡ shared.work_queue.is_closed
  opened : to.completion_queue.is_closed ≡ false
  capacity : to.completion_queue.capacity ≡ shared.completion_queue.capacity
  bounded :
      length shared.completion_queue.items ≤ shared.completion_queue.capacity
      → length to.completion_queue.items ≤ to.completion_queue.capacity
  fewer : length to.work_queue.items ≤ length shared.work_queue.items
  less :
      4 * length to.work_queue.items + effort w < 4 * length shared.work_queue.items + effort worker
  emptied : (gone w ≡ 0) ⊎ (length to.work_queue.items ≡ 0)

popped-Progress :
    (stop : Bool) (items : List WorkItem) (shared : Shared) (w : Worker) (to : Shared)
    → items ≡ shared.work_queue.items
    → shared.completion_queue.is_closed ≡ false
    → after_pop shared (pop_items stop items shared.work_queue) ≡ some (w, to)
    → Progress idle w shared to
unfolding after_pop pop_items
popped-Progress stop [] shared w to e o h = let size = ap length e in ground arith
popped-Progress stop (item ∷ items) shared w to e o h = let size = ap length e in ground arith

work-Progress :
    (hash : Bytes → ℕ) (now : TimePoint) (stop : Bool) (worker w : Worker) (shared to : Shared)
    → shared.completion_queue.is_closed ≡ false
    → work hash now stop worker shared ≡ some (w, to)
    → Progress worker w shared to
unfolding work pop push after_push
work-Progress hash now stop idle w shared to o h =
    popped-Progress stop shared.work_queue.items shared w to refl o h
work-Progress hash now stop (running item) w shared to o h = ground arith
work-Progress hash now stop (delivering c) w shared to o h =
    ground (arith, length-append shared.completion_queue.items (c ∷ []))
work-Progress hash now stop waking w shared to o h = ground arith
work-Progress hash now stop stopped w shared to o h = cc

-- What a run keeps, and what it uses up.
pub record Advance (n : ℕ) (pool to : Pool) : Type 0 where
  pub draining : IsDraining to
  pub used : n + steps_left to ≤ steps_left pool
  pub capacity : to.shared.completion_queue.capacity ≡ pool.shared.completion_queue.capacity
  pub threads : length to.workers ≡ length pool.workers

returned-set :
    (workers : List Worker) (i before after : ℕ) (w : Worker)
    → i < length workers
    → (total gone workers ≡ 0) ⊎ (before ≡ 0)
    → after ≤ before
    → (gone w ≡ 0) ⊎ (after ≡ 0)
    → (total gone (set workers i w) ≡ 0) ⊎ (after ≡ 0)
returned-set workers i before after w inside (inl none_gone) fewer (inl stays) =
    inl (omega (arith, total-set gone workers i w stopped inside))
returned-set workers i before after w inside (inr done) fewer e = inr (omega arith)
returned-set workers i before after w inside r fewer (inr done) = inr done

Step-Advance :
    (hash : Bytes → ℕ) (pool to : Pool) → Step hash pool to → IsDraining pool → Advance 1 pool to
Step-Advance hash pool _ (move i now stop worker shared inside h) d =
    let p = work-Progress hash now stop _ worker pool.shared shared d.opened h in
    record {
      draining = record {
        closed = p.closed ∙ d.closed;
        opened = p.opened;
        bounded = p.bounded d.bounded;
        returned = returned-set pool.workers i _ _ worker inside d.returned p.fewer p.emptied;
      };
      used = omega (arith, p.less, total-set effort pool.workers i worker stopped inside);
      capacity = p.capacity;
      threads = length-set pool.workers i worker;
    }

pub Run-Advance :
    (hash : Bytes → ℕ) (n : ℕ) (pool to : Pool)
    → Run hash n pool to
    → IsDraining pool
    → Advance n pool to
Run-Advance hash _ pool _ here d = record {
  draining = d;
  used = omega arith;
  capacity = refl;
  threads = refl;
}
Run-Advance hash _ pool to (then_step run step) d =
    let first = Run-Advance hash _ pool _ run d in
    let last = Step-Advance hash _ to step first.draining in
    record {
      draining = last.draining;
      used = omega (arith, first.used, last.used);
      capacity = last.capacity ∙ first.capacity;
      threads = last.threads ∙ first.threads;
    }
