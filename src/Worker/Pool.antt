-- ===== src/Worker/Pool.antt =====
-- `WorkerPool` of src/worker/worker_pool.cpp: its threads, each at a place in `worker_main`, over the
-- store and the two queues.
pub mod Tokens
pub mod Shutdown
use cpp_kv_store.Base.{
  ℕ, suc, ◌<◌, Bytes, Bool, Option, none, some, List, ◌==◌, if◌then◌else◌, length, get_or, set,
  replicate, ◌≡◌,
}
use cpp_kv_store.Storage.Time.{TimePoint}
use cpp_kv_store.Storage.Store.{Store}
use cpp_kv_store.Command.{dispatch}
use cpp_kv_store.Net.Wakeup.{wake}
use cpp_kv_store.Worker.BoundedQueue.{BoundedQueue, PushStatus, PopStatus, push, pop}
use cpp_kv_store.Worker.BoundedQueue
use cpp_kv_store.Worker.Items.{WorkItem, Completion}

-- What the threads share.
pub record Shared : Type 0 where
  pub store : Store
  pub work_queue : BoundedQueue WorkItem
  pub completion_queue : BoundedQueue Completion
  -- The event loop's eventfd, to which the callback of the completion queue writes.
  pub wakeups : ℕ

-- Where a thread is in `worker_main`: at the pop, with an item that it took, with a completion that
-- it has to push, with its callback to call, or returned.
pub data Worker : Type 0 where
  idle : Worker
  running : WorkItem → Worker
  delivering : Completion → Worker
  waking : Worker
  stopped : Worker

unfoldable pub after_pop :
    Shared → Option (PopStatus WorkItem × BoundedQueue WorkItem) → Option (Worker × Shared)
after_pop shared none = none
after_pop shared (some (PopStatus.ok item, queue)) =
    some (running item, record shared { work_queue = queue })
after_pop shared (some (PopStatus.closed, queue)) =
    some (stopped, record shared { work_queue = queue })
after_pop shared (some (PopStatus.stopped, queue)) =
    some (stopped, record shared { work_queue = queue })

unfoldable pub after_push :
    Shared → Option (PushStatus × BoundedQueue Completion) → Option (Worker × Shared)
after_push shared none = none
after_push shared (some (PushStatus.ok, queue)) =
    some (waking, record shared { completion_queue = queue })
after_push shared (some (PushStatus.full, queue)) =
    some (stopped, record shared { completion_queue = queue })
after_push shared (some (PushStatus.closed, queue)) =
    some (stopped, record shared { completion_queue = queue })

-- A thread's next critical section, at a time, with whether its token requests to stop; `none` where
-- it waits or has returned.
unfoldable pub work : (Bytes → ℕ) → TimePoint → Bool → Worker → Shared → Option (Worker × Shared)
work hash now stop idle shared = after_pop shared (pop stop shared.work_queue)
work hash now stop (running item) shared =
    let (response, store) = dispatch hash now shared.store item.command in
    some (
      delivering (record {
        connection_id = item.connection_id;
        connection_generation = item.connection_generation;
        sequence = item.sequence;
        response = response;
      }),
      record shared { store = store },
    )
work hash now stop (delivering completion) shared =
    after_push shared (push completion shared.completion_queue)
work hash now stop waking shared = some (idle, record shared { wakeups = wake shared.wakeups })
work hash now stop stopped shared = none

pub record Pool : Type 0 where
  pub workers : List Worker
  pub shared : Shared

-- The constructor, with whether so many threads can be started; `none` is an exception, which stops
-- and joins those that were.
unfoldable pub new_pool : (ℕ → Bool) → ℕ → Shared → Option Pool
new_pool starts worker_count shared =
    if worker_count == 0
    then none
    else if starts worker_count
    then some (record { workers = replicate worker_count idle; shared = shared })
    else none

-- The destructor, up to the joins: the work queue is closed.
unfoldable pub close_work : Pool → Pool
close_work pool = record pool {
  shared = record pool.shared { work_queue = BoundedQueue.close pool.shared.work_queue };
}

-- Any thread makes its next step.
pub data Step (hash : Bytes → ℕ) : Pool → Pool → Type 0 where
  move :
      (i : ℕ) (now : TimePoint) (stop : Bool) (worker : Worker) (shared : Shared) {pool : Pool}
      → i < length pool.workers
      → work hash now stop (get_or pool.workers i stopped) pool.shared ≡ some (worker, shared)
      → Step hash pool (record { workers = set pool.workers i worker; shared = shared })

-- A run of so many steps.
pub data Run (hash : Bytes → ℕ) : ℕ → Pool → Pool → Type 0 where
  here : {pool : Pool} → Run hash 0 pool pool
  then_step :
      {n : ℕ} {pool middle to : Pool}
      → Run hash n pool middle
      → Step hash middle to
      → Run hash (suc n) pool to

-- No thread can make a step, at any time and whether or not a stop is requested.
abbrev pub IsStuck : (Bytes → ℕ) → Pool → Type 0
IsStuck hash pool =
    (i : ℕ) (now : TimePoint) (stop : Bool)
    → i < length pool.workers
    → work hash now stop (get_or pool.workers i stopped) pool.shared ≡ none
