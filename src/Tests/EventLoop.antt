-- ===== src/Tests/EventLoop.antt =====
-- The event loop's handling of a connection's input.
use cpp_kv_store.Base.{
  ℕ, suc, Bytes, Bool, false, Option, none, some, [], ◌++◌, ◌≡◌, refl, length, codes, arith,
}
use cpp_kv_store.Base.Assoc.{nat_eq, find, erase, insert}
use cpp_kv_store.Protocol.Integer.{parse_nonnegative_integer}
use cpp_kv_store.Protocol.Line.{find_crlf, read_line}
use cpp_kv_store.Protocol.Frame.{
  read_length, read_body, read_bulk, read_bulks, read_multibulk_frame,
}
use cpp_kv_store.Protocol.Build.{build_command, build_named, build_ping, to_upper_ascii}
use cpp_kv_store.Protocol.Serializer.{crlf}
use cpp_kv_store.Protocol.Parser.{parse_command, result_of}
use cpp_kv_store.Net.BoundedBuffer.{append, consume}
use cpp_kv_store.Net.ResponseSequencer.{
  new_sequencer, take_request_sequence, in_flight_count, emplace, advance, release, record_response,
}
use cpp_kv_store.Net.EventLoop.{
  LoopState, push_responses, respond, begin_request, answered, after_push, on_command,
  on_recoverable, on_fatal, on_result, round, process_input,
}
use cpp_kv_store.Net.EventLoop.Rounds.{process_input-returns}
use cpp_kv_store.Net.ResponseSequencer.Accounts.{new-Accounts, Accounts-ext}
use cpp_kv_store.Net.EventLoop.Balance.{IsBalanced}
use cpp_kv_store.Net.EventLoop.Balance.Inputs.{besides, process_input-IsBalanced}
use cpp_kv_store.Base.Totals.{total}
use cpp_kv_store.Worker.BoundedQueue.{try_push}
use cpp_kv_store.Worker.Pool.Tokens.{of_item}

-- Two pipelined PING requests and the beginning of a third.
abbrev ping_frame : Bytes
ping_frame = codes "*1" ++ (crlf ++ (codes "$4" ++ (crlf ++ (codes "PING" ++ crlf))))

abbrev busy_client : LoopState
busy_client = record {
  connection = record {
    id = 5;
    generation = 1;
    peer_address = codes "first";
    input = record { bytes = ping_frame ++ (ping_frame ++ codes "*1"); capacity = 100 };
    output = record { bytes = []; capacity = 100 };
    sequencer = new_sequencer;
  };
  work_queue = record { items = []; capacity = 1; is_closed = false };
}

-- What is left in the input, what is sent, and the number of requests handed to the workers.
observe : Option (Bool × LoopState) → Option (Bytes × Bytes × ℕ)
observe none = none
observe (some (still, st)) =
    some (st.connection.input.bytes, st.connection.output.bytes, length st.work_queue.items)

-- The second request finds the work queue full; its reply waits for that of the first.
process_input_test : observe (process_input 40 64 busy_client) ≡ some (codes "*1", [], 1)
unfolding observe process_input round on_result on_command on_recoverable on_fatal begin_request
    answered after_push respond push_responses take_request_sequence in_flight_count emplace advance
    release record_response append consume try_push parse_command result_of read_multibulk_frame
    read_bulks read_bulk read_body read_length read_line find_crlf parse_nonnegative_integer
    build_command build_named build_ping to_upper_ascii find insert erase
process_input_test = refl

process_input-returns_example :
    (r : Bool × LoopState) × (process_input
        (suc (length busy_client.connection.input.bytes))
        64
        busy_client
      ≡ some r)
process_input-returns_example = process_input-returns 64 busy_client

-- What `process_input` makes of that client.
ended : (r : Bool × LoopState) × (process_input 40 64 busy_client ≡ some r)
unfolding process_input round on_result on_command on_recoverable on_fatal begin_request answered
    after_push respond push_responses take_request_sequence in_flight_count emplace advance release
    record_response append consume try_push parse_command result_of read_multibulk_frame read_bulks
    read_bulk read_body read_length read_line find_crlf parse_nonnegative_integer build_command
    build_named build_ping to_upper_ascii find insert erase
ended = (_, refl)

busy_client-IsBalanced : IsBalanced 64 (λ k. 0) busy_client.connection busy_client.work_queue
unfolding find
busy_client-IsBalanced = record {
  accounts = Accounts-ext (λ k. 0) _ new_sequencer (λ k. refl) new-Accounts;
  capped = omega arith;
  released = refl;
}

process_input-IsBalanced_example :
    IsBalanced 64 (λ k. 0) ended.0.1.connection ended.0.1.work_queue
    × (ended.0.1.connection.id ≡ 5)
    × (ended.0.1.connection.generation ≡ 1)
    × ((f : ℕ → ℕ → ℕ → ℕ)
        → total (of_item (besides busy_client.connection f)) ended.0.1.work_queue.items ≡ 0)
process_input-IsBalanced_example =
    process_input-IsBalanced 64 (λ k. 0) 40 busy_client ended.0.1 ended.0.0 (omega arith)
      busy_client-IsBalanced ended.1
