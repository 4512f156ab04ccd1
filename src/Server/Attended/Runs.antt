-- ===== src/Server/Attended/Runs.antt =====
-- What the server is left with at ::epoll_wait, after any steps of its threads.
use cpp_kv_store.Base.{
  ℕ, Bytes, ◌+◌, ◌≤◌, ◌<◌, ◌==◌, false, not, some, ◌≡◌, refl, subst, arith, inl, inr, ◌⊎◌, length,
}
use cpp_kv_store.Base.Assoc.{nat_eq, find}
use cpp_kv_store.Storage.Time.{word}
use cpp_kv_store.Protocol.Command.{need_more_data}
use cpp_kv_store.Protocol.Parser.{parse_command}
use cpp_kv_store.Net.ConnectionRegistry.{Connection, find_current}
use cpp_kv_store.Net.ResponseSequencer.{in_flight_count}
use cpp_kv_store.Net.ResponseSequencer.Accounts.{in_flight_count_lem}
use cpp_kv_store.Net.Listener.{accept_round}
use cpp_kv_store.Net.EventLoop.Steps.{
  EventLoop, EventLoopConfig, Os, Place, waiting, accepting, draining, returned, reading, parsing,
  writing, loop_step,
}
use cpp_kv_store.Worker.Pool.{Pool}
use cpp_kv_store.Worker.Pool.Shutdown.{load}
use cpp_kv_store.Server.{
  Server, loop_of, started, ServerStep, loop_moves, thread_moves, sweeper_moves, ServerRun,
  at_start, and_then,
}
use cpp_kv_store.Server.Sound.Runs.{ServerRun-IsSound, ServerRun-answered}
use cpp_kv_store.Server.Attended.{asks_write, IsAttended}
use cpp_kv_store.Server.Attended.Handlers.{Ends, read_step-Ends}
use cpp_kv_store.Server.Attended.Writes.{write_step-Ends, on_event-Ends}
use cpp_kv_store.Server.Attended.Steps.{parse_step-Ends, drain_step-Ends}
use cpp_kv_store.Server.Attended.Accepts.{accept_step-Ends}

loop_step-Ends :
    (config : EventLoopConfig) (os : Os) (place : Place) (loop : EventLoop)
    → IsAttended config.max_in_flight_per_connection place loop
    → Ends config.max_in_flight_per_connection (loop_step config os place loop)
unfolding loop_step
loop_step-Ends config os waiting loop a = on_event-Ends _ os.send os.event loop a
loop_step-Ends config os accepting loop a =
    accept_step-Ends _ config (accept_round os.accepted) os.registered loop a
loop_step-Ends config os draining loop a = drain_step-Ends _ os loop a
loop_step-Ends config os returned loop a = a
loop_step-Ends config os (reading id) loop a = read_step-Ends _ os id loop a
loop_step-Ends config os (parsing caller id) loop a =
    parse_step-Ends _ config os caller id loop refl a
loop_step-Ends config os (writing caller id) loop a = write_step-Ends _ os caller id loop a

ServerStep-IsAttended :
    (config : EventLoopConfig) (hash : Bytes → ℕ) (server to : Server)
    → ServerStep config hash server to
    → IsAttended config.max_in_flight_per_connection server.place (loop_of server)
    → IsAttended config.max_in_flight_per_connection to.place (loop_of to)
ServerStep-IsAttended config hash server _ (loop_moves os) a =
    loop_step-Ends config os server.place (loop_of server) a
ServerStep-IsAttended config hash server _ (thread_moves i now worker shared inside h) a = a
ServerStep-IsAttended config hash server _ (sweeper_moves now max_items index) a = a

ServerRun-IsAttended :
    (config : EventLoopConfig) (hash : Bytes → ℕ) (n : ℕ) (pool : Pool) (server : Server)
    → ServerRun config hash n (started pool) server
    → IsAttended config.max_in_flight_per_connection server.place (loop_of server)
unfolding find
ServerRun-IsAttended config hash _ pool _ at_start = λ id c h. absurd (ground arith)
ServerRun-IsAttended config hash _ pool server (and_then {n = n} {middle = middle} run step) =
    ServerStep-IsAttended config hash middle server step
      (ServerRun-IsAttended config hash n pool middle run)

-- After any steps of the event loop, the worker threads and the sweeper, in any order and with any
-- answers of the operating system, when the event loop waits at ::epoll_wait: of each connection that
-- it knows, the requests in flight have reached the cap or the input holds no whole frame; and the
-- last ::epoll_ctl call for the connection asks for EPOLLOUT exactly if output is buffered.
pub ServerRun-waiting :
    (config : EventLoopConfig) (hash : Bytes → ℕ) (n : ℕ) (pool : Pool) (server : Server) (id : ℕ)
    (c : Connection)
    → ServerRun config hash n (started pool) server
    → server.place ≡ waiting
    → find_current id server.connections ≡ some c
    → ((config.max_in_flight_per_connection ≤ in_flight_count c.sequencer)
        ⊎ (parse_command c.input.bytes ≡ need_more_data))
      × (asks_write id server.epoll_calls ≡ not (length c.output.bytes == 0))
unfolding find_current
ServerRun-waiting config hash n pool server id c run still h =
    let a =
      subst (λ p. IsAttended config.max_in_flight_per_connection p (loop_of server)) still
        (ServerRun-IsAttended config hash n pool server run) id c h in
    (
      a.settled refl,
      subst (λ i. asks_write i server.epoll_calls ≡ not (length c.output.bytes == 0)) a.own
          (a.shown refl),
    )

-- After fewer than 2 ^ 64 - 2 such steps from a start without requests and with the completion queue
-- open, with a cap above zero, when the event loop waits at ::epoll_wait and no request is in the
-- queues or with the threads: of each connection that it knows, every request has been answered and
-- its response released, the input holds no whole frame, and the last ::epoll_ctl call asks for
-- EPOLLOUT exactly if output is buffered.
pub ServerRun-at_rest :
    (config : EventLoopConfig) (hash : Bytes → ℕ) (n : ℕ) (pool : Pool) (server : Server) (id : ℕ)
    (c : Connection)
    → ServerRun config hash n (started pool) server
    → n + 2 < word
    → 0 < config.max_in_flight_per_connection
    → load pool ≡ 0
    → pool.shared.completion_queue.is_closed ≡ false
    → server.place ≡ waiting
    → load server.pool ≡ 0
    → find_current id server.connections ≡ some c
    → (c.sequencer.next_expected ≡ c.sequencer.next_request_sequence)
      × (parse_command c.input.bytes ≡ need_more_data)
      × (asks_write id server.epoll_calls ≡ not (length c.output.bytes == 0))
unfolding find_current
ServerRun-at_rest config hash n pool server id c run room some_cap empty opened still at_rest h =
    let answered =
      ServerRun-answered config hash n pool server id c run room empty opened at_rest h in
    let w = ServerRun-waiting config hash n pool server id c run still h in
    let e = (ServerRun-IsSound config hash n pool server run room empty opened).entries id c h in
    let flying = in_flight_count_lem _ c.sequencer e.accounts in
    (answered, elim w.0 [ inl full ↦ absurd (omega arith) | inr unparsed ↦ unparsed ], w.1)
