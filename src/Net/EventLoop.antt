-- ===== src/Net/EventLoop.antt =====
-- The part of src/net/event_loop.cpp between a connection's input buffer, its sequencer, its output
-- buffer and the work queue: `process_input` and `push_responses`. The calls of the logger are left out.
pub mod Rounds
pub mod Balance
pub mod Construct
pub mod Steps
pub mod Closing
use cpp_kv_store.Base.{
  ℕ, zero, suc, Bytes, Bool, true, false, Option, none, some, List, [], ◌∷◌, leb, if◌then◌else◌,
  codes,
}
use cpp_kv_store.Protocol.Command.{
  ProtocolError, ParsedCommand, ParseResult, complete, need_more_data, protocol_error,
}
use cpp_kv_store.Protocol.Serializer.{encode_error}
use cpp_kv_store.Protocol.Parser.{parse_command}
use cpp_kv_store.Net.BoundedBuffer.{append, consume}
use cpp_kv_store.Net.ResponseSequencer.{take_request_sequence, in_flight_count, record_response}
use cpp_kv_store.Net.ConnectionRegistry.{Connection}
use cpp_kv_store.Worker.Items.{WorkItem}
use cpp_kv_store.Worker.BoundedQueue.{BoundedQueue, PushStatus, try_push}

-- What `process_input` changes.
pub record LoopState : Type 0 where
  pub connection : Connection
  pub work_queue : BoundedQueue WorkItem

unfoldable pub push_responses : List Bytes → Connection → Bool × Connection
push_responses [] connection = (true, connection)
push_responses (response ∷ ready) connection =
    let (fits, output) = append response connection.output in
    let rest = push_responses ready (record connection { output = output }) in
    if fits then rest else (false, connection)

-- push_responses(connection, connection.sequencer().record(sequence, response))
unfoldable pub respond : ℕ → Bytes → Connection → Bool × Connection
respond sequence response connection =
    let (ready, sequencer) = record_response sequence response connection.sequencer in
    push_responses ready (record connection { sequencer = sequencer })

-- A round of the loop returns from `process_input`, or goes on.
pub data Round : Type 0 where
  stop : Bool → LoopState → Round
  again : LoopState → Round

-- The bytes of a frame are taken off, and the request gets its sequence number.
unfoldable pub begin_request : ℕ → Connection → ℕ × Connection
begin_request consumed_bytes connection =
    let (sequence, sequencer) = take_request_sequence connection.sequencer in
    (
      sequence,
      record connection { input = consume consumed_bytes connection.input; sequencer = sequencer },
    )

-- A response that the event loop gives itself: the connection must be closed if it does not fit.
unfoldable pub answered : Bool × Connection → BoundedQueue WorkItem → Round
answered (true, connection) queue = again (record { connection = connection; work_queue = queue })
answered (false, connection) queue =
    stop false (record { connection = connection; work_queue = queue })

unfoldable pub after_push : PushStatus → ℕ → Connection → BoundedQueue WorkItem → Round
after_push PushStatus.ok sequence connection queue =
    again (record { connection = connection; work_queue = queue })
after_push PushStatus.closed sequence connection queue =
    answered (respond sequence (encode_error (codes "ERR server shutting down")) connection) queue
after_push PushStatus.full sequence connection queue =
    answered (respond sequence (encode_error (codes "ERR server busy, try again")) connection) queue

unfoldable pub on_command : ParsedCommand → LoopState → Round
on_command parsed st =
    let (sequence, connection) = begin_request parsed.consumed_bytes st.connection in
    let (status, queue) =
      try_push
        (record {
          connection_id = connection.id;
          connection_generation = connection.generation;
          sequence = sequence;
          command = parsed.command;
        })
        st.work_queue in
    after_push status sequence connection queue

unfoldable pub on_recoverable : ProtocolError → LoopState → Round
on_recoverable error st =
    let (sequence, connection) = begin_request error.consumed_bytes st.connection in
    answered (respond sequence (encode_error error.message) connection) st.work_queue

-- Broken framing: nothing is taken off the input, and whether the reply fits is ignored.
unfoldable pub on_fatal : ProtocolError → LoopState → Round
on_fatal error st =
    let (sequence, sequencer) = take_request_sequence st.connection.sequencer in
    let (_, connection) =
      respond sequence (encode_error error.message)
        (record st.connection { sequencer = sequencer }) in
    stop false (record st { connection = connection })

unfoldable pub on_result : ParseResult → LoopState → Round
on_result need_more_data st = stop true st
on_result (complete parsed) st = on_command parsed st
on_result (protocol_error error) st =
    if error.recoverable then on_recoverable error st else on_fatal error st

unfoldable pub round : ℕ → LoopState → Round
round max_in_flight st =
    if leb max_in_flight (in_flight_count st.connection.sequencer)
    then stop true st
    else on_result (parse_command st.connection.input.bytes) st

-- The loop; `none` is a lack of fuel.
unfoldable pub process_input : ℕ → ℕ → LoopState → Option (Bool × LoopState)
process_input zero max_in_flight st = none
process_input (suc fuel) max_in_flight st = elim (round max_in_flight st) [
  | stop open_still st' ↦ some (open_still, st')
  | again st' ↦ process_input fuel max_in_flight st'
]
