-- ===== src/Server.antt =====
-- The server of src/main.cpp at work: the event loop of src/net/event_loop.cpp and the threads of
-- src/worker/worker_pool.cpp, which share the two queues, with the sweeps of the store in between.
pub mod Sound
pub mod Attended
pub mod Awake
pub mod Start
use cpp_kv_store.Base.{ℕ, suc, ◌<◌, Bytes, false, some, List, [], ◌≡◌, length, get_or, set}
use cpp_kv_store.Storage.Time.{TimePoint}
use cpp_kv_store.Command.History.{sweep_at}
use cpp_kv_store.Net.ConnectionRegistry.{ConnectionRegistry, new_registry}
use cpp_kv_store.Net.EventLoop.Steps.{
  EpollCall, EventLoopConfig, EventLoop, Os, Place, waiting, loop_step,
}
use cpp_kv_store.Worker.Pool.{Shared, Worker, stopped, work, Pool}

-- The event loop's place, its connections and its calls, and the pool with what the threads share.
pub record Server : Type 0 where
  pub place : Place
  pub connections : ConnectionRegistry
  pub epoll_calls : List EpollCall
  pub pool : Pool

-- The event loop as its own code sees it.
abbrev pub loop_of : Server → EventLoop
loop_of server = record {
  connections = server.connections;
  work_queue = server.pool.shared.work_queue;
  completion_queue = server.pool.shared.completion_queue;
  wakeups = server.pool.shared.wakeups;
  epoll_calls = server.epoll_calls;
}

-- The server after a step of the event loop.
abbrev pub with_loop : Place × EventLoop → Server → Server
with_loop (place, loop) server = record {
  place = place;
  connections = loop.connections;
  epoll_calls = loop.epoll_calls;
  pool = record server.pool {
    shared = record server.pool.shared {
      work_queue = loop.work_queue;
      completion_queue = loop.completion_queue;
      wakeups = loop.wakeups;
    };
  };
}

-- Before the first event, with the pool that `main` has made.
abbrev pub started : Pool → Server
started pool = record { place = waiting; connections = new_registry; epoll_calls = []; pool = pool }

-- The event loop, a worker thread or the sweeper, on one shard, makes a step. Only the pool's
-- destructor requests its threads to stop, so here none is.
pub data ServerStep (config : EventLoopConfig) (hash : Bytes → ℕ) : Server → Server → Type 0 where
  loop_moves :
      (os : Os) {server : Server}
      → ServerStep config hash server
          (with_loop (loop_step config os server.place (loop_of server)) server)
  thread_moves :
      (i : ℕ) (now : TimePoint) (worker : Worker) (shared : Shared) {server : Server}
      → i < length server.pool.workers
      → work hash now false (get_or server.pool.workers i stopped) server.pool.shared
        ≡ some (worker, shared)
      → ServerStep config hash server (record server {
        pool = record { workers = set server.pool.workers i worker; shared = shared };
      })
  sweeper_moves :
      (now : TimePoint) (max_items_per_shard index : ℕ) {server : Server}
      → ServerStep config hash server (record server {
        pool = record server.pool {
          shared = record server.pool.shared {
            store = sweep_at max_items_per_shard now index server.pool.shared.store;
          };
        };
      })

-- So many steps, in any order.
pub data ServerRun (config : EventLoopConfig) (hash : Bytes → ℕ)
    : ℕ → Server → Server → Type 0 where
  at_start : {server : Server} → ServerRun config hash 0 server server
  and_then :
      {n : ℕ} {server middle to : Server}
      → ServerRun config hash n server middle
      → ServerStep config hash middle to
      → ServerRun config hash (suc n) server to
