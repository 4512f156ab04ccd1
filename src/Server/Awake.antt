-- ===== src/Server/Awake.antt =====
-- The eventfd between the threads of src/worker/worker_pool.cpp and the event loop of
-- src/net/event_loop.cpp: when the event loop is to look at the completion queue again.
pub mod Handlers
pub mod Parses
pub mod Loops
pub mod Threads
pub mod Runs
use cpp_kv_store.Base.{ℕ, ◌+◌, ◌<◌, ◌≡◌, ◌⊎◌, length}
use cpp_kv_store.Base.Totals.{total}
use cpp_kv_store.Net.EventLoop.Steps.{
  EventLoop, Caller, epoll_event, completion, Place, waiting, accepting, draining, returned,
  reading, parsing, writing,
}
use cpp_kv_store.Worker.Pool.{Worker, idle, running, delivering, waking, stopped}
use cpp_kv_store.Server.{Server}

-- Within `handle_completion` and the loop that calls it, another try_pop follows.
abbrev pub owed : Caller → ℕ
owed epoll_event = 0
owed completion = 1

abbrev pub drains : Place → ℕ
drains waiting = 0
drains accepting = 0
drains draining = 1
drains returned = 0
drains (reading id) = 0
drains (parsing caller id) = owed caller
drains (writing caller id) = owed caller

-- A thread that has pushed a completion, and not yet written to the eventfd.
abbrev pub wakes : Worker → ℕ
wakes idle = 0
wakes (running item) = 0
wakes (delivering done) = 0
wakes waking = 1
wakes stopped = 0

-- The completion queue is empty, or the event loop has been or will be told, or is at it.
abbrev pub IsAwake : Server → Type 0
IsAwake server =
    (length server.pool.shared.completion_queue.items ≡ 0)
    ⊎ (0 < server.pool.shared.wakeups + total wakes server.pool.workers + drains server.place)

-- What a step leaves of the queues and of the eventfd.
pub record Calm (loop to : EventLoop) : Type 0 where
  pub completion_queue : to.completion_queue ≡ loop.completion_queue
  pub wakeups : to.wakeups ≡ loop.wakeups
  pub closed : to.work_queue.is_closed ≡ loop.work_queue.is_closed

abbrev pub Stays : ℕ → EventLoop → Place × EventLoop → Type 0
Stays due loop r = (drains r.0 ≡ due) × Calm loop r.1
