-- ===== src/Worker/Pool/Shutdown/Joins.antt =====
-- Whether the joins in the destructor of `WorkerPool` of src/worker/worker_pool.cpp return.
use cpp_kv_store.Base.{
  ℕ, ◌+◌, ◌*◌, ◌≤◌, ◌<◌, Bytes, true, false, none, List, [], ◌∷◌, length, get_or, ◌≡◌, ◌≢◌, refl,
  arith, inl, inr,
}
use cpp_kv_store.Base.Totals.{total, le-total, total-zero, total_mono, total_one}
use cpp_kv_store.Worker.BoundedQueue.{pop, pop_items, push}
use cpp_kv_store.Worker.Items.{WorkItem}
use cpp_kv_store.Worker.Pool.{
  Shared, Worker, idle, running, delivering, waking, stopped, after_pop, after_push, work, Pool,
  Run, IsStuck,
}
use cpp_kv_store.Worker.Pool.Tokens.{of_worker, Run-weight}
use cpp_kv_store.Worker.Pool.Shutdown.{gone, load, effort, IsDraining, Run-Advance}

-- The threads that have not returned.
abbrev pub live : Worker → ℕ
live stopped = 0
live _ = 1

idle_moves :
    (items : List WorkItem) (shared : Shared)
    → shared.work_queue.is_closed ≡ true
    → after_pop shared (pop_items false items shared.work_queue) ≢ none
unfolding after_pop pop_items
idle_moves [] shared c = λ h. ground arith
idle_moves (item ∷ items) shared c = λ h. cc

-- With room for its completion a thread that cannot make a step has returned.
stuck-live :
    (hash : Bytes → ℕ) (worker : Worker) (shared : Shared)
    → shared.work_queue.is_closed ≡ true
    → shared.completion_queue.is_closed ≡ false
    → length shared.completion_queue.items + of_worker (λ c g s. 1) worker
      ≤ shared.completion_queue.capacity
    → work hash 0 false worker shared ≡ none
    → live worker ≡ 0
unfolding work pop push after_push
stuck-live hash idle shared c o room h = absurd (idle_moves shared.work_queue.items shared c h)
stuck-live hash (running item) shared c o room h = cc
stuck-live hash (delivering completion) shared c o room h = ground arith
stuck-live hash waking shared c o room h = cc
stuck-live hash stopped shared c o room h = refl

abbrev pub with_threads : Worker → ℕ
with_threads = of_worker (λ connection generation sequence. 1)

load_parts :
    (pool : Pool)
    → load pool
      ≡ length pool.shared.work_queue.items
        + length pool.shared.completion_queue.items
        + total with_threads pool.workers
load_parts pool =
    omega
      (arith, total_one pool.shared.work_queue.items, total_one pool.shared.completion_queue.items)

carried-le-live : (workers : List Worker) → total with_threads workers ≤ total live workers
carried-le-live workers = total_mono with_threads live workers (λ w. ground arith)

live-or-gone : (workers : List Worker) → total live workers + total gone workers ≡ length workers
live-or-gone [] = omega arith
live-or-gone (idle ∷ workers) = omega (arith, live-or-gone workers)
live-or-gone (running item ∷ workers) = omega (arith, live-or-gone workers)
live-or-gone (delivering c ∷ workers) = omega (arith, live-or-gone workers)
live-or-gone (waking ∷ workers) = omega (arith, live-or-gone workers)
live-or-gone (stopped ∷ workers) = omega (arith, live-or-gone workers)

-- Once the work queue is closed and the completion queue, still open, is left alone, the threads make
-- no more steps than four for each request in the work queue and at most four for each thread.
pub shutdown-ends :
    (hash : Bytes → ℕ) (n : ℕ) (pool to : Pool)
    → Run hash n pool to
    → IsDraining pool
    → n ≤ 4 * length pool.shared.work_queue.items + total effort pool.workers
shutdown-ends hash n pool to run d = omega (arith, (Run-Advance hash n pool to run d).used)

-- Once the work queue is closed and the completion queue, still open, is left alone, with room for
-- every request that is left, then where no thread can make a step all of them have returned.
pub shutdown-finishes :
    (hash : Bytes → ℕ) (n : ℕ) (pool to : Pool)
    → Run hash n pool to
    → IsDraining pool
    → load pool ≤ pool.shared.completion_queue.capacity
    → IsStuck hash to
    → total live to.workers ≡ 0
shutdown-finishes hash n pool to run d room stuck =
    let a = Run-Advance hash n pool to run d in
    let kept = (Run-weight (λ c g s. 1) hash n pool to run d.opened).0 in
    total-zero live to.workers stopped λ i inside.
      stuck-live hash (get_or to.workers i stopped) to.shared a.draining.closed a.draining.opened
        (omega (
          arith,
          kept,
          a.capacity,
          load_parts to,
          le-total with_threads to.workers i stopped inside,
        ))
        (stuck i 0 false inside)

-- Once the work queue is closed and the completion queue, still open, is left alone, a pool of at
-- least one thread never finishes if more requests are left than the completion queue has room for:
-- after any steps of the threads one of them has not returned.
pub shutdown-hangs :
    (hash : Bytes → ℕ) (n : ℕ) (pool to : Pool)
    → Run hash n pool to
    → IsDraining pool
    → 0 < length pool.workers
    → pool.shared.completion_queue.capacity < load pool
    → 0 < total live to.workers
shutdown-hangs hash n pool to run d some_thread heavy =
    let a = Run-Advance hash n pool to run d in
    let kept = (Run-weight (λ c g s. 1) hash n pool to run d.opened).0 in
    elim a.draining.returned [
      | inl none_gone ↦ omega (arith, none_gone, live-or-gone to.workers, a.threads)
      | inr empty ↦ omega (
        arith,
        empty,
        kept,
        a.capacity,
        a.draining.bounded,
        load_parts to,
        carried-le-live to.workers,
      )
    ]
