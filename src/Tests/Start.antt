-- ===== src/Tests/Start.antt =====
-- The start of the program.
use cpp_kv_store.Base.{
  ℕ, zero, suc, ◌<◌, ◌≤◌, ◌⊎◌, false, none, get_or, some, Bytes, true, not, ◌==◌, length, arith,
  List, [], ◌∷◌, ◌≡◌, ◌≢◌, refl, codes,
}
use cpp_kv_store.Storage.Store.{store_of, new_store, normalize_shard_count, bit_ceil_from}
use cpp_kv_store.Cli.Options.{
  LogLevel, take_digits, number_of_digits, whole_number, unsigned_value, parse_unsigned,
  to_lower_char, level_of, parse_level, is_help, is_version, takes_value, set_option, parse_from,
  parse_args,
}
use cpp_kv_store.Net.FileDescriptor.{release, reset, destroy}
use cpp_kv_store.Net.Listener.{
  ListenerConfig, default_backlog, new_listener, after_socket, after_check, check, port,
}
use cpp_kv_store.Net.EventLoop.Construct.{
  EventLoopCalls, new_event_loop, after_listener, after_built, check_members, check_adds,
  after_members, IsTidy, new_event_loop-IsTidy,
}
use cpp_kv_store.Worker.BoundedQueue.{new_queue, pop, pop_items, close}
use cpp_kv_store.Worker.Pool.{
  Pool, new_pool, work, after_pop, stopped, close_work, Run, here, then_step, move, IsStuck,
}
use cpp_kv_store.Server.{started}
use cpp_kv_store.Server.Start.{
  undefined, StartCalls, serving, with_port, with_pool, with_event_loop, with_queues, with_store,
  with_level, with_options, main,
}
use cpp_kv_store.Server.Start.Ready.{IsReady, main-defined, main-IsReady}
use cpp_kv_store.Base.Totals.{total}
use cpp_kv_store.Worker.Pool.Shutdown.{load}
use cpp_kv_store.Worker.Pool.Shutdown.Joins.{live}
use cpp_kv_store.Server.Start.Shutdown.{main-shutdown}
use cpp_kv_store.Server.Start.Rest.{main-at_rest}
use cpp_kv_store.Server.Attended.{asks_write}
use cpp_kv_store.Protocol.Command.{need_more_data}
use cpp_kv_store.Protocol.Parser.{parse_command}
use cpp_kv_store.Tests.Server.{
  new_threads, answered_client, at_rest, answers, known, one_thread, woken_server, serves,
}

abbrev arguments : List Bytes
arguments =
    codes "--workers"
    ∷ codes "1"
    ∷ codes "--shards"
    ∷ codes "2"
    ∷ codes "--queue-capacity"
    ∷ codes "2"
    ∷ codes "--log-level"
    ∷ codes "Warning"
    ∷ []

-- The descriptors are 3, 4 and 5, and the port is free.
abbrev event_loop_calls : EventLoopCalls
event_loop_calls = record {
  listener = record {
    socket = some 3;
    setsockopt = true;
    inet_pton = λ address. true;
    bind = λ address number. true;
    listen = λ backlog. true;
    getsockname = some 6380;
  };
  epoll_create1 = some 4;
  eventfd = some 5;
  epoll_ctl_add = λ fd. true;
}

abbrev system : StartCalls
system = record {
  event_loop = event_loop_calls;
  allocates_shards = λ count. true;
  starts_threads = λ count. true;
}

main_test : main arguments system ≡ serving LogLevel.warn (started new_threads)
unfolding main with_options with_level with_store with_queues with_event_loop with_pool with_port
    new_event_loop after_listener after_built check_members check_adds after_members new_listener
    after_socket after_check check port release reset destroy parse_args parse_from is_help
    is_version takes_value set_option parse_unsigned unsigned_value whole_number number_of_digits
    take_digits parse_level level_of to_lower_char new_store normalize_shard_count bit_ceil_from
    store_of new_queue new_pool
main_test = refl

main-defined_example : main arguments system ≢ undefined
main-defined_example = main-defined arguments system

main-IsReady_example : (pool : Pool) × ((started new_threads ≡ started pool) × IsReady pool)
main-IsReady_example = main-IsReady arguments system LogLevel.warn (started new_threads) main_test

all_wait :
    (i : ℕ)
    → i < 1
    → work length 10 false (get_or new_threads.workers i stopped) new_threads.shared ≡ none
unfolding work after_pop pop pop_items
all_wait zero inside = refl
all_wait (suc i) inside = absurd (omega arith)

main-at_rest_example :
    (answered_client.sequencer.next_expected ≡ answered_client.sequencer.next_request_sequence)
    × (parse_command [] ≡ need_more_data)
    × (asks_write 7 at_rest.epoll_calls ≡ not (length answered_client.output.bytes == 0))
main-at_rest_example =
    main-at_rest arguments system LogLevel.warn length 19 (started new_threads) at_rest 10 7
      answered_client main_test answers (omega arith) refl refl all_wait known

-- ::epoll_create1 fails, and what was opened for the listener and the eventfd is closed.
abbrev without_epoll : EventLoopCalls
without_epoll = record event_loop_calls { epoll_create1 = none }

abbrev any_address : ListenerConfig
any_address = record { bind_address = codes "0.0.0.0"; port = 0; backlog = default_backlog }

new_event_loop_test : (new_event_loop without_epoll any_address).closed ≡ 5 ∷ 3 ∷ []
unfolding new_event_loop after_listener after_built check_members check_adds after_members
    new_listener after_socket after_check check release reset destroy
new_event_loop_test = refl

new_event_loop-IsTidy_example :
    IsTidy
      (new_event_loop without_epoll any_address).result
      (new_event_loop without_epoll any_address).opened
      (new_event_loop without_epoll any_address).closed
new_event_loop-IsTidy_example = new_event_loop-IsTidy without_epoll any_address

-- The event loop returns before it has sent the response, and the thread finds the queue closed.
abbrev ended : Pool
ended = record {
  workers = stopped ∷ [];
  shared = record woken_server.pool.shared {
    work_queue = record { items = []; capacity = 2; is_closed = true };
  };
}

closes : Run length 1 (close_work woken_server.pool) ended
unfolding close_work close work after_pop pop pop_items
closes = then_step here (move 0 10 true _ _ one_thread refl)

ended-IsStuck : IsStuck length ended
unfolding work
ended-IsStuck zero now stop inside = refl
ended-IsStuck (suc i) now stop inside = absurd (omega arith)

main-shutdown_example :
    ((load woken_server.pool ≤ 2) × (total live ended.workers ≡ 0))
    ⊎ ((2 < load woken_server.pool) × (0 < total live ended.workers))
main-shutdown_example =
    main-shutdown arguments system LogLevel.warn length 13 1 (started new_threads) woken_server
      ended main_test serves closes ended-IsStuck
