-- ===== src/Server/Start/Rest.antt =====
-- The server that src/main.cpp starts, once it is at rest.
use cpp_kv_store.Base.{
  ℕ, false, none, get_or, ◌+◌, ◌<◌, Bytes, not, some, List, ◌≡◌, subst, arith, length, ◌==◌,
}
use cpp_kv_store.Storage.Time.{word, TimePoint}
use cpp_kv_store.Cli.Options.{LogLevel}
use cpp_kv_store.Protocol.Command.{need_more_data}
use cpp_kv_store.Protocol.Parser.{parse_command}
use cpp_kv_store.Net.ConnectionRegistry.{Connection, find_current}
use cpp_kv_store.Net.EventLoop.Steps.{waiting}
use cpp_kv_store.Worker.Pool.{stopped, work}
use cpp_kv_store.Server.Awake.Runs.{ServerRun-drained}
use cpp_kv_store.Server.{Server, ServerRun}
use cpp_kv_store.Server.Attended.{asks_write}
use cpp_kv_store.Server.Attended.Runs.{ServerRun-at_rest}
use cpp_kv_store.Server.Start.{StartCalls, default_config, serving, main}
use cpp_kv_store.Server.Start.Ready.{main-IsReady}

-- Of a server that `main` runs for some arguments and answers of the operating system, after fewer than 2 ^ 64 - 2 steps of the event loop,
-- the worker threads and the sweeper, in any order and with any answers of the operating system: when
-- the event loop waits at ::epoll_wait, the eventfd is not readable and every thread waits, so that
-- only a client can start a step of those, then every request of each connection that the event loop
-- knows has been answered and its response released, the connection's input holds no whole frame,
-- and the last ::epoll_ctl call for it asks for EPOLLOUT exactly if output is buffered.
pub main-at_rest :
    (args : List Bytes) (calls : StartCalls) (level : LogLevel) (hash : Bytes → ℕ) (n : ℕ)
    (server to : Server) (now : TimePoint) (id : ℕ) (c : Connection)
    → main args calls ≡ serving level server
    → ServerRun default_config hash n server to
    → n + 2 < word
    → to.place ≡ waiting
    → to.pool.shared.wakeups ≡ 0
    → ((i : ℕ)
        → i < length to.pool.workers
        → work hash now false (get_or to.pool.workers i stopped) to.pool.shared ≡ none)
    → find_current id to.connections ≡ some c
    → (c.sequencer.next_expected ≡ c.sequencer.next_request_sequence)
      × (parse_command c.input.bytes ≡ need_more_data)
      × (asks_write id to.epoll_calls ≡ not (length c.output.bytes == 0))
main-at_rest args calls level hash n server to now id c h run room still asleep blocked known =
    let (pool, (same, ready)) = main-IsReady args calls level server h in
    let from_pool = subst (λ s. ServerRun default_config hash n s to) same run in
    let at_rest =
      ServerRun-drained default_config hash n pool to now from_pool ready still asleep blocked in
    ServerRun-at_rest default_config hash n pool to id c from_pool room (omega arith) ready.empty
      ready.opened still at_rest known
