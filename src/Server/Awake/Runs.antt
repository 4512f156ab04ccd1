-- ===== src/Server/Awake/Runs.antt =====
-- No completion is left in the queue while the event loop of src/net/event_loop.cpp sleeps, and what
-- is left when no part of the server can move.
use cpp_kv_store.Base.{
  ℕ, ◌+◌, ◌≤◌, ◌<◌, Bytes, false, none, length, get_or, set, length-set, ◌≡◌, refl, ◌∙◌, ap, inl,
  inr, arith,
}
use cpp_kv_store.Base.Totals.{total, total-set, le-total, total-zero, total_one}
use cpp_kv_store.Storage.Time.{TimePoint}
use cpp_kv_store.Net.EventLoop.Steps.{EventLoopConfig, Place, EventLoop, waiting}
use cpp_kv_store.Worker.Pool.{Shared, Worker, stopped, work, Pool}
use cpp_kv_store.Worker.Pool.Tokens.{of_worker}
use cpp_kv_store.Worker.Pool.Shutdown.{gone, load}
use cpp_kv_store.Server.{
  Server, loop_of, with_loop, started, ServerStep, loop_moves, thread_moves, sweeper_moves,
  ServerRun, at_start, and_then,
}
use cpp_kv_store.Server.Start.Ready.{IsReady}
use cpp_kv_store.Server.Awake.{drains, wakes, IsAwake}
use cpp_kv_store.Server.Awake.Loops.{Watches, loop_step-Watches}
use cpp_kv_store.Server.Awake.Threads.{Tells, work-Tells, work-blocked, blocked-wakes}

-- Before the destructors: the queues are open and no thread has returned.
pub record IsServing (server : Server) : Type 0 where
  pub working : server.pool.shared.work_queue.is_closed ≡ false
  pub opened : server.pool.shared.completion_queue.is_closed ≡ false
  pub room : 0 < server.pool.shared.completion_queue.capacity
  pub bounded :
      length server.pool.shared.completion_queue.items
      ≤ server.pool.shared.completion_queue.capacity
  pub threads : 0 < length server.pool.workers
  pub staying : total gone server.pool.workers ≡ 0
  pub awake : IsAwake server

loop_moves-IsAwake :
    (server : Server) (r : Place × EventLoop)
    → Watches server.place (loop_of server) r
    → IsAwake server
    → IsAwake (with_loop r server)
loop_moves-IsAwake server r w awake = elim w.told [
  | inl empty ↦ inl empty
  | inr (inl due) ↦ inr (omega arith)
  | inr (inr same) ↦ elim awake [
    | inl empty ↦ inl (rw same.1.completion_queue empty)
    | inr told ↦ inr (omega (arith, same.0, same.1.wakeups))
  ]
]

loop_moves-IsServing :
    (server : Server) (r : Place × EventLoop)
    → Watches server.place (loop_of server) r
    → IsServing server
    → IsServing (with_loop r server)
loop_moves-IsServing server r w s = record {
  working = w.closed ∙ s.working;
  opened = w.opened ∙ s.opened;
  room = let c = w.capacity in let room = s.room in omega arith;
  bounded = let c = w.capacity in let f = w.fewer in let b = s.bounded in omega arith;
  threads = s.threads;
  staying = s.staying;
  awake = loop_moves-IsAwake server r w s.awake;
}

thread_moves-IsServing :
    (server : Server) (i : ℕ) (worker : Worker) (shared : Shared)
    → i < length server.pool.workers
    → Tells (get_or server.pool.workers i stopped) worker server.pool.shared shared
    → IsServing server
    → IsServing (record server {
      pool = record { workers = set server.pool.workers i worker; shared = shared };
    })
thread_moves-IsServing server i worker shared inside t s =
    let moved = total-set wakes server.pool.workers i worker stopped inside in
    let there = le-total wakes server.pool.workers i stopped inside in
    record {
      working = t.working;
      opened = t.opened;
      room = let c = t.capacity in let room = s.room in omega arith;
      bounded = t.bounded s.bounded;
      threads = let l = length-set server.pool.workers i worker in let h = s.threads in omega arith;
      staying =
          omega (
            arith,
            total-set gone server.pool.workers i worker stopped inside,
            t.staying,
            s.staying,
          );
      awake = elim t.told [
        | inl told ↦ inr (omega arith)
        | inr same ↦ elim s.awake [
          | inl empty ↦ inl (rw same.0 empty)
          | inr told ↦ inr (omega (arith, same.1))
        ]
      ];
    }

ServerStep-IsServing :
    (config : EventLoopConfig) (hash : Bytes → ℕ) (server to : Server)
    → ServerStep config hash server to
    → IsServing server
    → IsServing to
ServerStep-IsServing config hash server _ (loop_moves os) s =
    loop_moves-IsServing server _ (loop_step-Watches config os server.place (loop_of server)) s
ServerStep-IsServing config hash server _ (thread_moves i now worker shared inside h) s =
    thread_moves-IsServing server i worker shared inside
      (work-Tells hash now _ worker server.pool.shared shared s.working s.opened h) s
ServerStep-IsServing config hash server _ (sweeper_moves now max_items index) s = record {
  working = s.working;
  opened = s.opened;
  room = s.room;
  bounded = s.bounded;
  threads = s.threads;
  staying = s.staying;
  awake = s.awake;
}

pub ServerRun-IsServing :
    (config : EventLoopConfig) (hash : Bytes → ℕ) (n : ℕ) (pool : Pool) (server : Server)
    → ServerRun config hash n (started pool) server
    → IsReady pool
    → IsServing server
ServerRun-IsServing config hash _ pool _ at_start ready = record {
  working = ready.working;
  opened = ready.opened;
  room = ready.room.1;
  bounded = omega (arith, ready.empty, total_one pool.shared.completion_queue.items);
  threads = ready.threads;
  staying = ready.staying;
  awake = inl (omega (arith, ready.empty, total_one pool.shared.completion_queue.items));
}
ServerRun-IsServing config hash _ pool server (and_then {n = n} {middle = middle} run step) ready =
    ServerStep-IsServing config hash middle server step
      (ServerRun-IsServing config hash n pool middle run ready)

-- After any steps of the event loop, the worker threads and the sweeper, in any order and with any
-- answers of the operating system, from a start without requests, with open queues that have room and
-- with threads that have not returned: while the event loop waits at ::epoll_wait and a completion is
-- in its queue, the eventfd is readable, or a thread is about to write to it.
pub ServerRun-awake :
    (config : EventLoopConfig) (hash : Bytes → ℕ) (n : ℕ) (pool : Pool) (server : Server)
    → ServerRun config hash n (started pool) server
    → IsReady pool
    → server.place ≡ waiting
    → 0 < length server.pool.shared.completion_queue.items
    → 0 < server.pool.shared.wakeups + total wakes server.pool.workers
ServerRun-awake config hash n pool server run ready still some_left =
    let s = ServerRun-IsServing config hash n pool server run ready in
    elim s.awake [
      | inl empty ↦ absurd (omega arith)
      | inr told ↦ let nothing_due = ap drains still in omega arith
    ]

sleeping-empty :
    (server : Server)
    → total wakes server.pool.workers ≡ 0
    → server.pool.shared.wakeups ≡ 0
    → server.place ≡ waiting
    → IsAwake server
    → length server.pool.shared.completion_queue.items ≡ 0
sleeping-empty server none_wakes asleep still (inl empty) = empty
sleeping-empty server none_wakes asleep still (inr told) =
    let nothing_due = ap drains still in absurd (omega arith)

-- A server that can make no step but one that the operating system starts has no request left.
pub ServerRun-drained :
    (config : EventLoopConfig) (hash : Bytes → ℕ) (n : ℕ) (pool : Pool) (server : Server)
    (now : TimePoint)
    → ServerRun config hash n (started pool) server
    → IsReady pool
    → server.place ≡ waiting
    → server.pool.shared.wakeups ≡ 0
    → ((i : ℕ)
        → i < length server.pool.workers
        → work hash now false (get_or server.pool.workers i stopped) server.pool.shared ≡ none)
    → load server.pool ≡ 0
ServerRun-drained config hash n pool server now run ready still asleep blocked =
    let s = ServerRun-IsServing config hash n pool server run ready in
    let workers = server.pool.workers in
    let shared = server.pool.shared in
    let none_wakes =
      total-zero wakes workers stopped
        (λ i inside. blocked-wakes hash now (get_or workers i stopped) shared (blocked i inside)) in
    let empty : length shared.completion_queue.items ≡ 0 =
      sleeping-empty server none_wakes asleep still s.awake in
    let room = s.room in
    let stays = s.staying in
    let at = λ (i : ℕ) (inside : i < length workers).
      work-blocked hash now (get_or workers i stopped) shared (blocked i inside) (omega arith)
        (omega (arith, le-total gone workers i stopped inside)) in
    let idle_all =
      total-zero (of_worker (λ c g k. 1)) workers stopped (λ i inside. rw (at i inside).0 refl) in
    let unworked = (at 0 s.threads).1 in
    omega
      (arith, idle_all, total_one shared.work_queue.items, total_one shared.completion_queue.items)
