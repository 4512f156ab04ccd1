-- ===== src/Server/Start.antt =====
-- `main` of src/main.cpp, from its arguments to the start of its event loop. What it prints is left
-- out. What the operating system answers meanwhile is an argument. Other allocations do not fail.
pub mod Ready
pub mod Rest
pub mod Shutdown
use cpp_kv_store.Base.{ℕ, ◌^◌, ltb, Bytes, Bool, Option, none, some, List, if◌then◌else◌, arith}
use cpp_kv_store.Storage.Store.{Store, new_store}
use cpp_kv_store.Cli.Options.{
  ServerOptions, Checked, valid, invalid_argument, LogLevel, parse_level, parse_args,
}
use cpp_kv_store.Net.ConnectionRegistry.{
  default_max_input_buffer_bytes, default_max_output_buffer_bytes,
}
use cpp_kv_store.Net.Listener.{ListenerConfig, default_backlog, Result, built, thrown, port}
use cpp_kv_store.Net.EventLoop.Construct.{EventLoopCalls, Members, new_event_loop}
use cpp_kv_store.Net.EventLoop.Steps.{EventLoopConfig}
use cpp_kv_store.Worker.BoundedQueue.{BoundedQueue, new_queue}
use cpp_kv_store.Worker.Items.{WorkItem, Completion}
use cpp_kv_store.Worker.Pool.{Shared, Pool, new_pool}
use cpp_kv_store.Server.{Server, started}

abbrev pub default_config : EventLoopConfig
default_config = record {
  max_input_bytes = default_max_input_buffer_bytes;
  max_output_bytes = default_max_output_buffer_bytes;
  max_in_flight_per_connection = 64;
}

-- What `main` comes to: the exit with code 1 for its arguments, the exits with code 0, an empty
-- std::optional that is dereferenced, the exit with code 1 for an exception, std::bit_ceil of a number
-- for which it is undefined, or a server that runs.
pub data Outcome : Type 0 where
  bad_arguments : Bytes → Outcome
  usage_shown version_shown undefined fatal_error bit_ceil_undefined : Outcome
  serving : LogLevel → Server → Outcome

-- What the operating system answers: to the constructor of the event loop, and whether so many shards
-- can be allocated and so many threads started.
pub record StartCalls : Type 0 where
  pub event_loop : EventLoopCalls
  pub allocates_shards : ℕ → Bool
  pub starts_threads : ℕ → Bool

-- Once the threads run: loop.port() for the log, and the event loop.
unfoldable pub with_port : LogLevel → Pool → Result ℕ → Outcome
with_port level pool (thrown e) = fatal_error
with_port level pool (built number) = serving level (started pool)

unfoldable pub with_pool : LogLevel → Result ℕ → Option Pool → Outcome
unfolding with_port
with_pool level bound none = fatal_error
with_pool level bound (some pool) = with_port level pool bound

unfoldable pub with_event_loop :
    LogLevel → ServerOptions → (ℕ → Bool) → Result ℕ → Shared → Result Members → Outcome
unfolding with_pool
with_event_loop level options starts bound shared (thrown e) = fatal_error
with_event_loop level options starts bound shared (built members) =
    with_pool level bound (new_pool starts options.worker_count shared)

abbrev listener_config : ServerOptions → ListenerConfig
listener_config options = record {
  bind_address = options.bind_address;
  port = options.port;
  backlog = default_backlog;
}

unfoldable pub with_queues :
    LogLevel
    → ServerOptions
    → StartCalls
    → Store
    → Option (BoundedQueue WorkItem)
    → Option (BoundedQueue Completion)
    → Outcome
unfolding with_event_loop
with_queues level options calls store (some work) (some completions) =
    with_event_loop level options calls.starts_threads (port calls.event_loop.listener)
      (record { store = store; work_queue = work; completion_queue = completions; wakeups = 0 })
      (new_event_loop calls.event_loop (listener_config options)).result
with_queues level options calls store _ _ = fatal_error

unfoldable pub with_store : LogLevel → ServerOptions → StartCalls → Option Store → Outcome
unfolding with_queues
with_store level options calls none = fatal_error
with_store level options calls (some store) =
    with_queues level options calls store (new_queue options.queue_capacity)
      (new_queue options.queue_capacity)

-- *Logger::parse_level(options.log_level), and what follows.
unfoldable pub with_level : ServerOptions → StartCalls → Option LogLevel → Outcome
unfolding with_store
with_level options calls none = undefined
with_level options calls (some level) =
    if ltb (2 ^ 63) options.shard_count
    then bit_ceil_undefined
    else with_store level options calls (new_store calls.allocates_shards options.shard_count)

unfoldable pub with_options : StartCalls → Checked ServerOptions → Outcome
unfolding with_level
with_options calls (invalid_argument message) = bad_arguments message
with_options calls (valid options) =
    if options.show_help
    then usage_shown
    else if options.show_version
    then version_shown
    else with_level options calls (parse_level options.log_level)

unfoldable pub main : List Bytes → StartCalls → Outcome
unfolding with_options
main args calls = with_options calls (parse_args args)
