-- ===== src/Server/Sound/Runs.antt =====
-- Any steps of the event loop, the worker threads and the sweeper leave every request at one place.
use cpp_kv_store.Base.{
  ℕ, suc, Bytes, ◌+◌, ◌≤◌, ◌<◌, false, none, some, ◌≡◌, refl, sym, ◌∙◌, subst, arith, inl, inr,
  Option-cases, List, set,
}
use cpp_kv_store.Base.Totals.{total_mono}
use cpp_kv_store.Base.Assoc.{nat_eq, find}
use cpp_kv_store.Storage.Time.{word}
use cpp_kv_store.Net.ConnectionRegistry.{Connection, find_current}
use cpp_kv_store.Net.ResponseSequencer.Accounts.{Accounts, Accounts-ext, next_expected-le}
use cpp_kv_store.Net.Wakeup.{drained}
use cpp_kv_store.Net.EventLoop.Balance.{request_at, IsCapped}
use cpp_kv_store.Net.Listener.{accept_round}
use cpp_kv_store.Net.EventLoop.Steps.{
  EventLoop, EventLoopConfig, Os, Place, waiting, accepting, draining, returned, reading, parsing,
  writing, Event, stop_requested, wakeup, listener_readable, hangup, readable, writable, on_event,
  loop_step, epoll_event,
}
use cpp_kv_store.Net.Io.{Sent}
use cpp_kv_store.Worker.BoundedQueue.{BoundedQueue}
use cpp_kv_store.Worker.Items.{WorkItem, Completion}
use cpp_kv_store.Worker.Pool.{Worker, idle, running, delivering, waking, stopped, Pool, Step, move}
use cpp_kv_store.Worker.Pool.Tokens.{of_item, of_completion, of_worker, weight, Step-weight}
use cpp_kv_store.Worker.Pool.Shutdown.{load}
use cpp_kv_store.Server.{
  Server, loop_of, started, ServerStep, loop_moves, thread_moves, sweeper_moves, ServerRun,
  at_start, and_then,
}
use cpp_kv_store.Server.Sound.{load_at, IsSound, IsSound-later, close_connection-IsSound}
use cpp_kv_store.Server.Sound.Puts.{calls-IsSound, begin_writable-IsSound}
use cpp_kv_store.Server.Sound.Transfers.{read_step-IsSound, write_step-IsSound}
use cpp_kv_store.Server.Sound.Moves.{parse_step-IsSound}
use cpp_kv_store.Server.Sound.Drains.{drain_step-IsSound}
use cpp_kv_store.Server.Sound.Accepts.{accept_step-IsSound}

module _ (max_in_flight : ℕ) (workers : List Worker) where
  on_event-IsSound :
      (n : ℕ) (send : Bytes → Sent) (event : Event) (loop : EventLoop)
      → IsSound max_in_flight workers n loop
      → IsSound max_in_flight workers n (on_event send event loop).1
  unfolding on_event
  on_event-IsSound n send stop_requested loop s = s
  on_event-IsSound n send wakeup loop s =
      calls-IsSound max_in_flight workers n loop.epoll_calls drained loop s
  on_event-IsSound n send listener_readable loop s = s
  on_event-IsSound n send (hangup id) loop s =
      elim (Option-cases (find_current id loop.connections)) [
        | inl e ↦ rw (e, on_event) s
        | inr (c, e) ↦
            rw (e, on_event)
              (close_connection-IsSound max_in_flight workers send n id c.generation loop s)
      ]
  on_event-IsSound n send (readable id) loop s =
      elim (Option-cases (find_current id loop.connections)) [
        | inl e ↦ rw (e, on_event) s
        | inr (c, e) ↦ rw (e, on_event) s
      ]
  on_event-IsSound n send (writable id) loop s =
      begin_writable-IsSound max_in_flight workers n epoll_event id loop s

  loop_step-IsSound :
      (n : ℕ) (config : EventLoopConfig) (os : Os) (place : Place) (loop : EventLoop)
      → config.max_in_flight_per_connection ≡ max_in_flight
      → n + 2 < word
      → IsSound max_in_flight workers n loop
      → IsSound max_in_flight workers (n + 1) (loop_step config os place loop).1
  unfolding loop_step
  loop_step-IsSound n config os waiting loop cap room s =
      IsSound-later max_in_flight workers n _ (on_event-IsSound n os.send os.event loop s)
  loop_step-IsSound n config os accepting loop cap room s =
      accept_step-IsSound max_in_flight workers n config (accept_round os.accepted) os.registered
        loop room s
  loop_step-IsSound n config os draining loop cap room s =
      drain_step-IsSound max_in_flight workers n os loop s
  loop_step-IsSound n config os returned loop cap room s =
      IsSound-later max_in_flight workers n loop s
  loop_step-IsSound n config os (reading id) loop cap room s =
      read_step-IsSound max_in_flight workers n os id loop s
  loop_step-IsSound n config os (parsing caller id) loop cap room s =
      parse_step-IsSound max_in_flight workers n config os caller id loop cap (omega arith) s
  loop_step-IsSound n config os (writing caller id) loop cap room s =
      write_step-IsSound max_in_flight workers n os caller id loop s

  -- Requests move between the queues and the threads.
  moved-IsSound :
      (n : ℕ) (workers' : List Worker) (work : BoundedQueue WorkItem)
      (completions : BoundedQueue Completion) (wakeups : ℕ) (loop : EventLoop)
      → IsSound max_in_flight workers n loop
      → completions.is_closed ≡ false
      → ((f : ℕ → ℕ → ℕ → ℕ)
          → load_at f workers' (record loop { work_queue = work; completion_queue = completions })
            ≡ load_at f workers loop)
      → IsSound max_in_flight workers'
          (n + 1)
          (record loop { work_queue = work; completion_queue = completions; wakeups = wakeups })
  moved-IsSound n workers' work completions wakeups loop s opened loads =
      let g = s.generations in
      record {
        entries = λ j c h.
            let old = s.entries j c h in
            let q = old.few in
            record {
              own = old.own;
              older = old.older;
              accounts =
                  Accounts-ext _ _ c.sequencer (λ k. sym (loads (request_at j c.generation k)))
                    old.accounts;
              capped = old.capped;
              few = omega arith;
              released = old.released;
            };
        fresh = λ j v k h. loads (request_at j v k) ∙ s.fresh j v k h;
        generations = omega arith;
        opened = opened;
      }

abbrev pub IsSoundServer : EventLoopConfig → ℕ → Server → Type 0
IsSoundServer config n server =
    IsSound config.max_in_flight_per_connection server.pool.workers n (loop_of server)

ServerStep-IsSound :
    (config : EventLoopConfig) (hash : Bytes → ℕ) (n : ℕ) (server to : Server)
    → ServerStep config hash server to
    → n + 2 < word
    → IsSoundServer config n server
    → IsSoundServer config (n + 1) to
ServerStep-IsSound config hash n server _ (loop_moves os) room s =
    loop_step-IsSound _ server.pool.workers n config os server.place (loop_of server) refl room s
ServerStep-IsSound config hash n server _ (thread_moves i now worker shared inside h) room s =
    let step : Step hash server.pool
        (record { workers = set server.pool.workers i worker; shared = shared }) =
      move i now false worker shared inside h in
    moved-IsSound _ server.pool.workers n (set server.pool.workers i worker) shared.work_queue
      shared.completion_queue shared.wakeups (loop_of server) s
      (Step-weight (λ c g k. 0) hash server.pool _ step s.opened).1
      (λ f. (Step-weight f hash server.pool _ step s.opened).0)
ServerStep-IsSound config hash n server _ (sweeper_moves now max_items index) room s =
    IsSound-later _ server.pool.workers n (loop_of server) s

-- Without requests in the queues and with the threads none is there of any connection.
at_most_one : (id g k i h s : ℕ) → request_at id g k i h s ≤ 1
at_most_one id g k i h s = ground arith

worker_at_most_one :
    (id g k : ℕ) (w : Worker) → of_worker (request_at id g k) w ≤ of_worker (λ c h s. 1) w
worker_at_most_one id g k idle = omega arith
worker_at_most_one id g k (running item) = at_most_one id g k _ _ _
worker_at_most_one id g k (delivering c) = at_most_one id g k _ _ _
worker_at_most_one id g k waking = omega arith
worker_at_most_one id g k stopped = omega arith

pub weight-load : (pool : Pool) (id g k : ℕ) → load pool ≡ 0 → weight (request_at id g k) pool ≡ 0
weight-load pool id g k none_there =
    let a =
      total_mono (of_item (request_at id g k)) (of_item (λ c h s. 1)) pool.shared.work_queue.items
        (λ x. at_most_one id g k _ _ _) in
    let b =
      total_mono (of_completion (request_at id g k)) (of_completion (λ c h s. 1))
        pool.shared.completion_queue.items (λ x. at_most_one id g k _ _ _) in
    let c =
      total_mono (of_worker (request_at id g k)) (of_worker (λ c h s. 1)) pool.workers
        (worker_at_most_one id g k) in
    omega arith

started-IsSound :
    (config : EventLoopConfig) (pool : Pool)
    → load pool ≡ 0
    → pool.shared.completion_queue.is_closed ≡ false
    → IsSoundServer config 0 (started pool)
unfolding find
started-IsSound config pool empty opened = record {
  entries = λ id c h. absurd (ground arith);
  fresh = λ id g k h. weight-load pool id g k empty;
  generations = omega arith;
  opened = opened;
}

pub ServerRun-IsSound :
    (config : EventLoopConfig) (hash : Bytes → ℕ) (n : ℕ) (pool : Pool) (server : Server)
    → ServerRun config hash n (started pool) server
    → n + 2 < word
    → load pool ≡ 0
    → pool.shared.completion_queue.is_closed ≡ false
    → IsSoundServer config n server
ServerRun-IsSound config hash _ pool _ at_start room empty opened =
    started-IsSound config pool empty opened
ServerRun-IsSound config hash _ pool server (and_then {n = n} {middle = middle} run step) room empty
      opened =
    let s = ServerRun-IsSound config hash n pool middle run (omega arith) empty opened in
    let one_more : n + 1 ≡ suc n = omega arith in
    subst (λ k. IsSoundServer config k server) one_more
      (ServerStep-IsSound config hash n middle server step (omega arith) s)

-- After fewer than 2 ^ 64 - 2 steps of the event loop, the worker threads and the sweeper, in any
-- order and with any answers of the operating system, from a start without requests and with the
-- completion queue open: of each connection that the event loop knows, every request is at exactly one
-- place (work queue, thread, completion queue, pending or released), no more than the cap are in
-- flight, and the next expected response is not pending.
pub ServerRun-balanced :
    (config : EventLoopConfig) (hash : Bytes → ℕ) (n : ℕ) (pool : Pool) (server : Server) (id : ℕ)
    (c : Connection)
    → ServerRun config hash n (started pool) server
    → n + 2 < word
    → load pool ≡ 0
    → pool.shared.completion_queue.is_closed ≡ false
    → find_current id server.connections ≡ some c
    → Accounts (λ k. weight (request_at id c.generation k) server.pool) c.sequencer
      × IsCapped config.max_in_flight_per_connection c.sequencer
      × (find c.sequencer.next_expected c.sequencer.pending ≡ none)
unfolding find_current
ServerRun-balanced config hash n pool server id c run room empty opened h =
    let e = (ServerRun-IsSound config hash n pool server run room empty opened).entries id c h in
    (e.accounts, e.capped, e.released)

-- Where no request is in the queues or with the threads, no response of a connection is awaited.
pub ServerRun-answered :
    (config : EventLoopConfig) (hash : Bytes → ℕ) (n : ℕ) (pool : Pool) (server : Server) (id : ℕ)
    (c : Connection)
    → ServerRun config hash n (started pool) server
    → n + 2 < word
    → load pool ≡ 0
    → pool.shared.completion_queue.is_closed ≡ false
    → load server.pool ≡ 0
    → find_current id server.connections ≡ some c
    → c.sequencer.next_expected ≡ c.sequencer.next_request_sequence
unfolding find_current
ServerRun-answered config hash n pool server id c run room empty opened at_rest h =
    let e = (ServerRun-IsSound config hash n pool server run room empty opened).entries id c h in
    let below = next_expected-le _ c.sequencer e.accounts in
    let b = e.accounts.balance c.sequencer.next_expected in
    let w = weight-load server.pool id c.generation c.sequencer.next_expected at_rest in
    let r = e.released in ground arith
