-- ===== src/Net/EventLoop/Steps.antt =====
-- `run` of src/net/event_loop.cpp and what it calls, in steps from one place in the code to the next.
-- Between two steps the worker threads may use the queues. The calls of the logger are left out.
use cpp_kv_store.Base.{
  ℕ, Bytes, Bool, true, false, not, Option, none, some, List, ◌∷◌, ◌==◌, if◌then◌else◌, length,
}
use cpp_kv_store.Base.Assoc.{nat_eq, insert}
use cpp_kv_store.Net.ConnectionRegistry.{
  Connection, ConnectionRegistry, add, find_connection, find_current,
}
use cpp_kv_store.Net.ConnectionRegistry
use cpp_kv_store.Net.Io.{Received, Sent, ReadStatus, WriteStatus, read_into, write_from}
use cpp_kv_store.Net.Listener.{
  Accept, AcceptRound, accepted, none_pending, retry, failure, accept_round,
}
use cpp_kv_store.Net.Wakeup.{drained}
use cpp_kv_store.Net.EventLoop.{Round, stop, again, respond, round}
use cpp_kv_store.Worker.BoundedQueue.{BoundedQueue, try_pop}
use cpp_kv_store.Worker.Items.{WorkItem, Completion}

-- The calls of ::epoll_ctl for clients' descriptors; with whether EPOLLOUT is asked for.
pub data EpollCall : Type 0 where
  epoll_ctl_add : ℕ → EpollCall
  epoll_ctl_mod : ℕ → Bool → EpollCall
  epoll_ctl_del : ℕ → EpollCall

pub record EventLoopConfig : Type 0 where
  pub max_input_bytes : ℕ
  pub max_output_bytes : ℕ
  pub max_in_flight_per_connection : ℕ

pub record EventLoop : Type 0 where
  pub connections : ConnectionRegistry
  pub work_queue : BoundedQueue WorkItem
  pub completion_queue : BoundedQueue Completion
  -- The counter of the eventfd.
  pub wakeups : ℕ
  -- The calls made so far, the newest first.
  pub epoll_calls : List EpollCall

-- What ::epoll_wait reports. A report of EPOLLIN with EPOLLOUT is one of each in turn.
pub data Event : Type 0 where
  stop_requested wakeup listener_readable : Event
  hangup readable writable : ℕ → Event

-- What the operating system answers the calls that a step makes: the event, the accepted client,
-- whether ::epoll_ctl(ADD) succeeds, and what a read and a write do.
pub record Os : Type 0 where
  pub event : Event
  pub accepted : Accept
  pub registered : Bool
  pub recv : ℕ → Received
  pub send : Bytes → Sent

-- Who called `process_input` or `handle_connection_writable`.
pub data Caller : Type 0 where
  epoll_event completion : Caller

-- Where the event loop is: at the head of a loop, with the connection it works on.
pub data Place : Type 0 where
  waiting accepting draining returned : Place
  reading : ℕ → Place
  parsing writing : Caller → ℕ → Place

abbrev pub back_to : Caller → Place
back_to epoll_event = waiting
back_to completion = draining

-- What was written through a `Connection&`.
abbrev pub put : Connection → EventLoop → EventLoop
put c loop = record loop {
  connections = record loop.connections {
    connections = insert c.id c loop.connections.connections;
  };
}

unfoldable pub flush : (Bytes → Sent) → Connection → Connection
flush send c =
    if length c.output.bytes == 0 then c else record c { output = (write_from send c.output).1 }

unfoldable pub close_connection : (Bytes → Sent) → ℕ → ℕ → EventLoop → EventLoop
unfolding flush
close_connection send id generation loop = elim (find_connection id generation loop.connections) [
  | none ↦ loop
  | some c ↦
      let flushed = put (flush send c) loop in
      record flushed {
        epoll_calls = epoll_ctl_del id ∷ loop.epoll_calls;
        connections = (ConnectionRegistry.close id generation flushed.connections).1;
      }
]

unfoldable pub update_epoll_interest : Connection → EventLoop → EventLoop
update_epoll_interest c loop = record loop {
  epoll_calls = epoll_ctl_mod c.id (not (length c.output.bytes == 0)) ∷ loop.epoll_calls;
}

-- The start of `handle_connection_writable`.
unfoldable pub begin_writable : Caller → ℕ → EventLoop → Place × EventLoop
begin_writable caller id loop = elim (find_current id loop.connections) [
  | none ↦ (back_to caller, loop)
  | some _ ↦ (writing caller id, loop)
]

-- `run`, for one event.
unfoldable pub on_event : (Bytes → Sent) → Event → EventLoop → Place × EventLoop
on_event send stop_requested loop = (returned, loop)
on_event send wakeup loop = (draining, record loop { wakeups = drained })
on_event send listener_readable loop = (accepting, loop)
on_event send (hangup id) loop = elim (find_current id loop.connections) [
  | none ↦ (waiting, loop)
  | some c ↦ (waiting, close_connection send id c.generation loop)
]
on_event send (readable id) loop = elim (find_current id loop.connections) [
  | none ↦ (waiting, loop)
  | some _ ↦ (reading id, loop)
]
on_event send (writable id) loop = begin_writable epoll_event id loop

-- After the registry's `add`: the exception of a connection's constructor leaves `run`.
unfoldable pub after_add :
    Bool → Option Connection × ConnectionRegistry → EventLoop → Place × EventLoop
after_add registered (none, registry) loop = (returned, record loop { connections = registry })
after_add registered (some c, registry) loop = (
  accepting,
  record loop {
    connections =
        if registered then registry else (ConnectionRegistry.close c.id c.generation registry).1;
    epoll_calls = epoll_ctl_add c.id ∷ loop.epoll_calls;
  },
)

-- A round of `handle_listener_readable` and of `accept_one`, whose exception leaves `run`.
unfoldable pub accept_step : EventLoopConfig → AcceptRound → Bool → EventLoop → Place × EventLoop
accept_step config none_pending registered loop = (waiting, loop)
accept_step config retry registered loop = (accepting, loop)
accept_step config failure registered loop = (returned, loop)
accept_step config (accepted fd peer) registered loop =
    after_add registered
      (add fd peer config.max_input_bytes config.max_output_bytes loop.connections) loop

unfoldable pub after_read : ReadStatus → (Bytes → Sent) → Connection → EventLoop → Place × EventLoop
after_read ReadStatus.read_some send c loop = (parsing epoll_event c.id, loop)
after_read ReadStatus.would_block send c loop = begin_writable epoll_event c.id loop
after_read _ send c loop = (waiting, close_connection send c.id c.generation loop)

-- A round of `handle_connection_readable`, without the call of `process_input`.
unfoldable pub read_step : Os → ℕ → EventLoop → Place × EventLoop
read_step os id loop = elim (find_current id loop.connections) [
  | none ↦ (waiting, loop)
  | some c ↦
      let (outcome, input) = read_into os.recv c.input in
      let c' = record c { input = input } in after_read outcome.status os.send c' (put c' loop)
]

-- `process_input` goes on, or returns to its caller.
unfoldable pub after_round : (Bytes → Sent) → Caller → Round → EventLoop → Place × EventLoop
after_round send caller (again st) loop = (
  parsing caller st.connection.id,
  record (put st.connection loop) { work_queue = st.work_queue },
)
after_round send caller (stop false st) loop = (
  back_to caller,
  close_connection send st.connection.id st.connection.generation
      (record (put st.connection loop) { work_queue = st.work_queue }),
)
after_round send epoll_event (stop true st) loop =
    (reading st.connection.id, record (put st.connection loop) { work_queue = st.work_queue })
after_round send completion (stop true st) loop =
    begin_writable completion st.connection.id
      (record (put st.connection loop) { work_queue = st.work_queue })

-- A round of `process_input`.
unfoldable pub parse_step : EventLoopConfig → Os → Caller → ℕ → EventLoop → Place × EventLoop
parse_step config os caller id loop = elim (find_current id loop.connections) [
  | none ↦ (back_to caller, loop)
  | some c ↦
      after_round os.send caller
        (round config.max_in_flight_per_connection
          (record { connection = c; work_queue = loop.work_queue }))
        loop
]

unfoldable pub after_write :
    WriteStatus → (Bytes → Sent) → Caller → Connection → EventLoop → Place × EventLoop
after_write WriteStatus.wrote_some send caller c loop = (writing caller c.id, loop)
after_write WriteStatus.would_block send caller c loop =
    (back_to caller, update_epoll_interest c loop)
after_write _ send caller c loop = (back_to caller, close_connection send c.id c.generation loop)

-- A round of `handle_connection_writable`, or what follows the last.
unfoldable pub write_step : Os → Caller → ℕ → EventLoop → Place × EventLoop
write_step os caller id loop = elim (find_current id loop.connections) [
  | none ↦ (back_to caller, loop)
  | some c ↦
      if length c.output.bytes == 0
      then (back_to caller, update_epoll_interest c loop)
      else (let (outcome, output) = write_from os.send c.output in
          let c' = record c { output = output } in
          after_write outcome.status os.send caller c' (put c' loop))
]

-- A completion's response is recorded; `process_input` follows if what is released fits.
unfoldable pub after_record : (Bytes → Sent) → Bool × Connection → EventLoop → Place × EventLoop
after_record send (true, c) loop = (parsing completion c.id, put c loop)
after_record send (false, c) loop = (draining, close_connection send c.id c.generation (put c loop))

unfoldable pub on_completion : (Bytes → Sent) → Completion → EventLoop → Place × EventLoop
on_completion send done loop =
    elim (find_connection done.connection_id done.connection_generation loop.connections) [
      | none ↦ (draining, loop)
      | some c ↦ after_record send (respond done.sequence done.response c) loop
    ]

unfoldable pub after_try_pop : (Bytes → Sent) → Option Completion → EventLoop → Place × EventLoop
after_try_pop send none loop = (waiting, loop)
after_try_pop send (some done) loop = on_completion send done loop

-- A round of `drain_completions`, up to the call of `process_input`.
unfoldable pub drain_step : Os → EventLoop → Place × EventLoop
drain_step os loop =
    let (popped, queue) = try_pop loop.completion_queue in
    after_try_pop os.send popped (record loop { completion_queue = queue })

unfoldable pub loop_step : EventLoopConfig → Os → Place → EventLoop → Place × EventLoop
loop_step config os waiting loop = on_event os.send os.event loop
loop_step config os accepting loop =
    accept_step config (accept_round os.accepted) os.registered loop
loop_step config os draining loop = drain_step os loop
loop_step config os returned loop = (returned, loop)
loop_step config os (reading id) loop = read_step os id loop
loop_step config os (parsing caller id) loop = parse_step config os caller id loop
loop_step config os (writing caller id) loop = write_step os caller id loop
