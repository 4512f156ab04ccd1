-- ===== src/Tests/Server.antt =====
-- The server answers a PING.
use cpp_kv_store.Base.{
  ◌+◌, ◌==◌, true, false, not, none, some, [], ◌∷◌, ◌++◌, ◌≡◌, ◌≤◌, ◌<◌, ◌⊎◌, refl, length, arith,
  codes,
}
use cpp_kv_store.Base.Assoc.{nat_eq, find, erase, insert}
use cpp_kv_store.Protocol.Command.{need_more_data}
use cpp_kv_store.Protocol.Integer.{parse_nonnegative_integer}
use cpp_kv_store.Protocol.Line.{find_crlf, read_line}
use cpp_kv_store.Protocol.Frame.{
  read_length, read_body, read_bulk, read_bulks, read_multibulk_frame,
}
use cpp_kv_store.Protocol.Build.{build_command, build_named, build_ping, to_upper_ascii}
use cpp_kv_store.Protocol.Serializer.{crlf, encode_simple_string}
use cpp_kv_store.Protocol.Parser.{parse_command, result_of}
use cpp_kv_store.Storage.Store.{store_of}
use cpp_kv_store.Command.{dispatch, dispatch_type}
use cpp_kv_store.Net.BoundedBuffer.{new_buffer, remaining, append, consume}
use cpp_kv_store.Net.Io.{
  Received, bytes, taken, eagain, no_read, no_write, attempt, after_recv, read_into, after_send,
  write_from,
}
use cpp_kv_store.Net.ResponseSequencer.{
  take_request_sequence, in_flight_count, emplace, advance, release, record_response,
}
use cpp_kv_store.Net.ResponseSequencer.Accounts.{Accounts}
use cpp_kv_store.Net.ConnectionRegistry.{
  Connection, connection_of, new_connection, take_generation, emplace_at, add, of_generation,
  find_connection, find_current,
}
use cpp_kv_store.Net.EventLoop.{
  push_responses, respond, begin_request, answered, on_command, on_result, round,
}
use cpp_kv_store.Net.EventLoop
use cpp_kv_store.Protocol.Integer.{to_string, decimal}
use cpp_kv_store.Net.Listener
use cpp_kv_store.Net.Listener.{Accept, client, accept_round}
use cpp_kv_store.Net.EventLoop.Balance.{request_at, IsCapped}
use cpp_kv_store.Net.EventLoop.Steps.{
  epoll_ctl_add, epoll_ctl_mod, Event, wakeup, listener_readable, readable, Os, waiting,
  update_epoll_interest, begin_writable, on_event, after_add, accept_step, after_read, read_step,
  after_round, parse_step, after_write, write_step, after_record, on_completion, after_try_pop,
  drain_step, loop_step,
}
use cpp_kv_store.Net.Wakeup.{wake}
use cpp_kv_store.Worker.BoundedQueue.{push, pop, pop_items, try_push, try_pop, try_pop_items}
use cpp_kv_store.Worker.Pool.{Pool, idle, after_pop, work}
use cpp_kv_store.Worker.Pool
use cpp_kv_store.Worker.Pool.Tokens.{weight}
use cpp_kv_store.Server.{Server, started, loop_moves, thread_moves, ServerRun, at_start, and_then}
use cpp_kv_store.Server.Sound.Runs.{ServerRun-balanced}
use cpp_kv_store.Server.Attended.{asks_write}
use cpp_kv_store.Base.Totals.{total}
use cpp_kv_store.Server.Start.Ready.{IsReady}
use cpp_kv_store.Server.Awake.{wakes}
use cpp_kv_store.Server.Awake.Runs.{ServerRun-awake}
use cpp_kv_store.Server.Start.{default_config}
use cpp_kv_store.Server.Attended.Runs.{ServerRun-waiting}

abbrev pub new_threads : Pool
new_threads = record {
  workers = idle ∷ [];
  shared = record {
    store = store_of 2;
    work_queue = record { items = []; capacity = 2; is_closed = false };
    completion_queue = record { items = []; capacity = 2; is_closed = false };
    wakeups = 0;
  };
}

-- The operating system reports an event, has no client, receives nothing and sends all.
abbrev os_of : Event → Os
os_of event = record {
  event = event;
  accepted = Accept.failed Listener.eagain;
  registered = true;
  recv = λ n. Received.failed eagain;
  send = λ s. taken (length s);
}

abbrev client_7 : Os
client_7 = record (os_of wakeup) { accepted = client 7 (codes "10.0.0.9") 5000 }

abbrev ping_arrives : Os
ping_arrives = record (os_of wakeup) {
  recv = λ n. bytes (codes "*1" ++ (crlf ++ (codes "$4" ++ (crlf ++ (codes "PING" ++ crlf)))));
}

-- The client's connection, when its request has been answered.
abbrev pub answered_client : Connection
answered_client = record {
  id = 7;
  generation = 1;
  peer_address = codes "10.0.0.9:5000";
  input = record { bytes = []; capacity = 2097152 };
  output = record { bytes = []; capacity = 2097152 };
  sequencer = record { next_request_sequence = 1; next_expected = 1; pending = [] };
}

abbrev pub at_rest : Server
at_rest = record {
  place = waiting;
  connections = record { next_generation = 2; connections = (7, answered_client) ∷ [] };
  epoll_calls = epoll_ctl_mod 7 false ∷ epoll_ctl_mod 7 false ∷ epoll_ctl_add 7 ∷ [];
  pool = new_threads;
}

pub one_thread : 0 < 1
one_thread = omega arith

-- The response is in the completion queue, and the thread has written to the eventfd.
abbrev pub woken_server : Server
woken_server = record {
  place = waiting;
  connections = record {
    next_generation = 2;
    connections =
        (
          7,
          record answered_client {
            sequencer = record { next_request_sequence = 1; next_expected = 0; pending = [] };
          },
        )
        ∷ [];
  };
  epoll_calls = epoll_ctl_mod 7 false ∷ epoll_ctl_add 7 ∷ [];
  pool = record new_threads {
    shared = record new_threads.shared {
      completion_queue = record {
        items =
            record {
              connection_id = 7;
              connection_generation = 1;
              sequence = 0;
              response = codes "+PONG" ++ crlf;
            }
            ∷ [];
        capacity = 2;
        is_closed = false;
      };
      wakeups = 1;
    };
  };
}

-- The client is accepted, its request read, parsed and handed over, and a thread answers it.
pub serves : ServerRun default_config length 13 (started new_threads) woken_server
unfolding loop_step on_event accept_step accept_round to_string decimal after_add add
    take_generation emplace_at new_connection connection_of new_buffer read_step read_into
    after_recv attempt remaining append no_read after_read begin_writable find_current parse_step
    after_round round on_result on_command begin_request answered EventLoop.after_push respond
    push_responses take_request_sequence in_flight_count emplace advance release record_response
    consume try_push parse_command result_of read_multibulk_frame read_bulks read_bulk read_body
    read_length read_line find_crlf parse_nonnegative_integer build_command build_named build_ping
    to_upper_ascii find insert erase write_step write_from after_send no_write after_write
    update_epoll_interest drain_step after_try_pop on_completion after_record try_pop try_pop_items
    find_connection of_generation work after_pop Pool.after_push pop pop_items push dispatch
    dispatch_type store_of encode_simple_string wake
serves =
    let accepted =
      and_then
        (and_then (and_then at_start (loop_moves (os_of listener_readable))) (loop_moves client_7))
        (loop_moves (os_of wakeup)) in
    let read =
      and_then (and_then accepted (loop_moves (os_of (readable 7)))) (loop_moves ping_arrives) in
    let parsed = and_then (and_then read (loop_moves (os_of wakeup))) (loop_moves (os_of wakeup)) in
    let idle_again =
      and_then (and_then parsed (loop_moves (os_of wakeup))) (loop_moves (os_of wakeup)) in
    let popped = and_then idle_again (thread_moves 0 10 _ _ one_thread refl) in
    let run = and_then popped (thread_moves 0 10 _ _ one_thread refl) in
    let pushed = and_then run (thread_moves 0 10 _ _ one_thread refl) in
    and_then pushed (thread_moves 0 10 _ _ one_thread refl)

-- The response is sent.
pub answers : ServerRun default_config length 19 (started new_threads) at_rest
unfolding loop_step on_event accept_step accept_round to_string decimal after_add add
    take_generation emplace_at new_connection connection_of new_buffer read_step read_into
    after_recv attempt remaining append no_read after_read begin_writable find_current parse_step
    after_round round on_result on_command begin_request answered EventLoop.after_push respond
    push_responses take_request_sequence in_flight_count emplace advance release record_response
    consume try_push parse_command result_of read_multibulk_frame read_bulks read_bulk read_body
    read_length read_line find_crlf parse_nonnegative_integer build_command build_named build_ping
    to_upper_ascii find insert erase write_step write_from after_send no_write after_write
    update_epoll_interest drain_step after_try_pop on_completion after_record try_pop try_pop_items
    find_connection of_generation work after_pop Pool.after_push pop pop_items push dispatch
    dispatch_type store_of encode_simple_string wake
answers =
    let recorded =
      and_then (and_then serves (loop_moves (os_of wakeup))) (loop_moves (os_of wakeup)) in
    let sent =
      and_then (and_then recorded (loop_moves (os_of wakeup))) (loop_moves (os_of wakeup)) in
    and_then (and_then sent (loop_moves (os_of wakeup))) (loop_moves (os_of wakeup))

new_threads-IsReady : IsReady new_threads
new_threads-IsReady = record {
  empty = refl;
  opened = refl;
  working = refl;
  threads = one_thread;
  staying = refl;
  room = (omega arith, omega arith);
}

ServerRun-awake_example :
    0 < woken_server.pool.shared.wakeups + total wakes woken_server.pool.workers
ServerRun-awake_example =
    ServerRun-awake default_config length 13 new_threads woken_server serves new_threads-IsReady
      refl (omega arith)

pub known : find_current 7 at_rest.connections ≡ some answered_client
unfolding find_current find
known = refl

ServerRun-balanced_example :
    Accounts (λ k. weight (request_at 7 1 k) new_threads) answered_client.sequencer
    × IsCapped 64 answered_client.sequencer
    × (find 1 answered_client.sequencer.pending ≡ none)
ServerRun-balanced_example =
    ServerRun-balanced default_config length 19 new_threads at_rest 7 answered_client answers
      (omega arith) refl refl known

ServerRun-waiting_example :
    ((64 ≤ in_flight_count answered_client.sequencer) ⊎ (parse_command [] ≡ need_more_data))
    × (asks_write 7 at_rest.epoll_calls ≡ not (length answered_client.output.bytes == 0))
ServerRun-waiting_example =
    ServerRun-waiting default_config length 19 new_threads at_rest 7 answered_client answers refl
      known
