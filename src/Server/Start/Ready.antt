-- ===== src/Server/Start/Ready.antt =====
-- What the start of src/main.cpp comes to.
use cpp_kv_store.Base.{
  ◌^◌, ltb, Bool, ℕ, zero, suc, ◌<◌, Bytes, false, Option, none, some, List, [], length, replicate,
  length-replicate, ◌==◌, ◌≡◌, ◌≢◌, refl, arith, inl, inr, ◌⊎◌, Bool-cases, Option-cases,
}
use cpp_kv_store.Base.Totals.{total}
use cpp_kv_store.Storage.Store.{Store, new_store}
use cpp_kv_store.Cli.Options.{ServerOptions, LogLevel, parse_level, parse_args}
use cpp_kv_store.Cli.Options.Sequence.{Checked-cases}
use cpp_kv_store.Cli.Options.Level.{parse_args-level}
use cpp_kv_store.Net.Listener.{Result, built, thrown, port}
use cpp_kv_store.Net.EventLoop.Construct.{Members}
use cpp_kv_store.Worker.BoundedQueue.{new_queue}
use cpp_kv_store.Worker.Pool.{Shared, Worker, Pool, idle, new_pool}
use cpp_kv_store.Worker.Pool.Shutdown.{load, gone}
use cpp_kv_store.Worker.Pool.Tokens.{of_worker}
use cpp_kv_store.Server.{Server, started}
use cpp_kv_store.Server.Start.{
  Outcome, bad_arguments, usage_shown, version_shown, undefined, fatal_error, bit_ceil_undefined,
  StartCalls, serving, with_port, with_pool, with_event_loop, with_queues, with_store, with_level,
  with_options, main,
}

-- A pool with nothing to do, and a thread at least; none has returned.
pub record IsReady (pool : Pool) : Type 0 where
  pub empty : load pool ≡ 0
  pub opened : pool.shared.completion_queue.is_closed ≡ false
  pub working : pool.shared.work_queue.is_closed ≡ false
  pub threads : 0 < length pool.workers
  pub staying : total gone pool.workers ≡ 0
  pub room : (0 < pool.shared.work_queue.capacity) × (0 < pool.shared.completion_queue.capacity)

-- An exception, or a server with such a pool.
abbrev IsFatalOrReady : LogLevel → Outcome → Type 0
IsFatalOrReady level r =
    (r ≡ fatal_error) ⊎ ((pool : Pool) × ((r ≡ serving level (started pool)) × IsReady pool))

idle_total : (f : Worker → ℕ) → f idle ≡ 0 → (n : ℕ) → total f (replicate n idle) ≡ 0
idle_total f none_idle zero = omega arith
idle_total f none_idle (suc n) = omega (arith, none_idle, idle_total f none_idle n)

abbrev shared_of : Store → ℕ → Shared
shared_of store capacity = record {
  store = store;
  work_queue = record { items = []; capacity = capacity; is_closed = false };
  completion_queue = record { items = []; capacity = capacity; is_closed = false };
  wakeups = 0;
}

with_port-ready :
    (level : LogLevel) (pool : Pool) (bound : Result ℕ)
    → IsReady pool
    → IsFatalOrReady level (with_port level pool bound)
unfolding with_port
with_port-ready level pool (thrown e) ready = inl refl
with_port-ready level pool (built number) ready = inr (pool, (refl, ready))

with_pool-ready :
    (level : LogLevel) (bound : Result ℕ) (starts : ℕ → Bool) (count capacity : ℕ) (store : Store)
    → 0 < capacity
    → IsFatalOrReady level
        (with_pool level bound (new_pool starts count (shared_of store capacity)))
unfolding with_pool new_pool
with_pool-ready level bound starts count capacity store room = elim (Bool-cases (count == 0)) [
  | inl e ↦ inl (rw e refl)
  | inr e ↦ elim (Bool-cases (starts count)) [
    | inr f ↦ inl (rw (e, f) refl)
    | inl f ↦
        rw (e, f)
          (with_port-ready level
            (record { workers = replicate count idle; shared = shared_of store capacity }) bound
            (record {
              empty = omega (arith, idle_total (of_worker (λ c g s. 1)) refl count);
              opened = refl;
              working = refl;
              threads = let l = length-replicate count idle in ground arith;
              staying = idle_total gone refl count;
              room = (room, room);
            }))
  ]
]

with_event_loop-ready :
    (level : LogLevel) (options : ServerOptions) (starts : ℕ → Bool) (bound : Result ℕ)
    (capacity : ℕ) (store : Store) (r : Result Members)
    → 0 < capacity
    → IsFatalOrReady level (with_event_loop level options starts bound (shared_of store capacity) r)
unfolding with_event_loop
with_event_loop-ready level options starts bound capacity store (thrown e) room = inl refl
with_event_loop-ready level options starts bound capacity store (built members) room =
    with_pool-ready level bound starts options.worker_count capacity store room

with_store-ready :
    (level : LogLevel) (options : ServerOptions) (calls : StartCalls) (store : Option Store)
    → IsFatalOrReady level (with_store level options calls store)
unfolding with_store with_queues new_queue
with_store-ready level options calls none = inl refl
with_store-ready level options calls (some store) =
    elim (Bool-cases (options.queue_capacity == 0)) [
      | inl e ↦ inl (rw e refl)
      | inr e ↦ rw e (
          with_event_loop-ready level options calls.starts_threads (port calls.event_loop.listener)
            options.queue_capacity store _ (ground arith))
    ]

-- Accepted arguments end in one of these, or show the usage or the version.
main-cases :
    (args : List Bytes) (calls : StartCalls)
    → ((message : Bytes) × (main args calls ≡ bad_arguments message))
      ⊎ ((main args calls ≡ usage_shown)
          ⊎ ((main args calls ≡ version_shown)
              ⊎ ((main args calls ≡ bit_ceil_undefined)
                  ⊎ ((level : LogLevel) × IsFatalOrReady level (main args calls)))))
unfolding main with_options with_level
main-cases args calls = elim (Checked-cases (parse_args args)) [
  | inr (message, e) ↦ inl (message, rw e refl)
  | inl (options, e) ↦ elim (Bool-cases options.show_help) [
    | inl f ↦ inr (inl (rw (e, f) refl))
    | inr f ↦ elim (Bool-cases options.show_version) [
      | inl g ↦ inr (inr (inl (rw (e, f, g) refl)))
      | inr g ↦ elim (Option-cases (parse_level options.log_level)) [
        | inl lost ↦ absurd (parse_args-level args options e lost)
        | inr (level, h) ↦ elim (Bool-cases (ltb (2 ^ 63) options.shard_count)) [
          | inl b ↦ inr (inr (inr (inl (rw (e, f, g, h, b) refl))))
          | inr b ↦
              let started_or_not =
                with_store-ready level options calls
                  (new_store calls.allocates_shards options.shard_count) in
              inr (inr (inr (inr (level, rw (e, f, g, h, b) started_or_not))))
        ]
      ]
    ]
  ]
]

-- Whatever the arguments, and whatever the operating system answers, `main` does not dereference an
-- empty std::optional for its log level.
pub main-defined : (args : List Bytes) (calls : StartCalls) → main args calls ≢ undefined
main-defined args calls h = elim (main-cases args calls) [
  | inl (message, e) ↦ cc
  | inr (inl e) ↦ cc
  | inr (inr (inl e)) ↦ cc
  | inr (inr (inr (inl e))) ↦ cc
  | inr (inr (inr (inr (level, inl e)))) ↦ cc
  | inr (inr (inr (inr (level, inr (pool, (e, ready)))))) ↦ cc
]

-- A server that `main` runs is started with a thread at least, open queues with room, and no request.
pub main-IsReady :
    (args : List Bytes) (calls : StartCalls) (level : LogLevel) (server : Server)
    → main args calls ≡ serving level server
    → (pool : Pool) × ((server ≡ started pool) × IsReady pool)
main-IsReady args calls level server h = elim (main-cases args calls) [
  | inl (message, e) ↦ cc
  | inr (inl e) ↦ cc
  | inr (inr (inl e)) ↦ cc
  | inr (inr (inr (inl e))) ↦ cc
  | inr (inr (inr (inr (l, inl e)))) ↦ cc
  | inr (inr (inr (inr (l, inr (pool, (e, ready)))))) ↦ (pool, (cc, ready))
]
