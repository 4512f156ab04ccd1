-- ===== src/Server/Awake/Parses.antt =====
-- `process_input` and what follows a completion, of src/net/event_loop.cpp: what they leave of the queues
-- and of the eventfd.
use cpp_kv_store.Base.{
  ℕ, Bytes, Bool, true, false, ◌≡◌, refl, inl, inr, subst, length, leb, Bool-cases, Option-cases,
}
use cpp_kv_store.Protocol.Command.{ParseResult, complete, need_more_data, protocol_error}
use cpp_kv_store.Net.ConnectionRegistry.{Connection, find_connection, find_current}
use cpp_kv_store.Net.ResponseSequencer.{in_flight_count}
use cpp_kv_store.Net.Io.{Sent}
use cpp_kv_store.Net.EventLoop.{
  LoopState, Round, stop, again, answered, after_push, on_command, on_recoverable, on_fatal,
  on_result, round,
}
use cpp_kv_store.Net.EventLoop.Steps.{
  EventLoop, EventLoopConfig, Os, Caller, epoll_event, completion, after_round, parse_step,
  after_record, on_completion,
}
use cpp_kv_store.Worker.BoundedQueue.{BoundedQueue, PushStatus, try_push}
use cpp_kv_store.Worker.Items.{WorkItem, Completion}
use cpp_kv_store.Server.Awake.{owed, Stays}
use cpp_kv_store.Server.Awake.Handlers.{
  Calm-refl, owed-back_to, closing-Stays, begin_writable-Stays,
}

-- A round of `process_input` neither opens nor closes the work queue.
abbrev IsAt : Bool → Round → Type 0
IsAt closed (stop still st) = st.work_queue.is_closed ≡ closed
IsAt closed (again st) = st.work_queue.is_closed ≡ closed

answered-IsAt :
    (r : Bool × Connection) (queue : BoundedQueue WorkItem)
    → IsAt queue.is_closed (answered r queue)
unfolding answered
answered-IsAt (true, c) queue = refl
answered-IsAt (false, c) queue = refl

after_push-IsAt :
    (status : PushStatus) (sequence : ℕ) (c : Connection) (queue : BoundedQueue WorkItem)
    → IsAt queue.is_closed (after_push status sequence c queue)
unfolding after_push
after_push-IsAt PushStatus.ok sequence c queue = refl
after_push-IsAt PushStatus.closed sequence c queue = answered-IsAt _ queue
after_push-IsAt PushStatus.full sequence c queue = answered-IsAt _ queue

try_push-is_closed :
    (item : WorkItem) (queue : BoundedQueue WorkItem)
    → (try_push item queue).1.is_closed ≡ queue.is_closed
unfolding try_push
try_push-is_closed item queue = elim (Bool-cases queue.is_closed) [
  | inl e ↦ simp e refl
  | inr e ↦ elim (Bool-cases (leb queue.capacity (length queue.items))) [
    | inl f ↦ simp (e, f) refl
    | inr f ↦ simp (e, f) refl
  ]
]

on_result-IsAt : (r : ParseResult) (st : LoopState) → IsAt st.work_queue.is_closed (on_result r st)
unfolding on_result on_command on_recoverable on_fatal
on_result-IsAt need_more_data st = refl
on_result-IsAt (complete parsed) st =
    subst (λ b. IsAt b (on_command parsed st)) (try_push-is_closed _ st.work_queue)
      (after_push-IsAt _ _ _ (try_push _ st.work_queue).1)
on_result-IsAt (protocol_error error) st = elim (Bool-cases error.recoverable) [
  | inl e ↦ simp e (answered-IsAt _ st.work_queue)
  | inr e ↦ simp e refl
]

round-IsAt : (n : ℕ) (st : LoopState) → IsAt st.work_queue.is_closed (round n st)
unfolding round
round-IsAt n st = elim (Bool-cases (leb n (in_flight_count st.connection.sequencer))) [
  | inl e ↦ rw e refl
  | inr e ↦ rw e (on_result-IsAt _ st)
]

after_round-Stays :
    (send : Bytes → Sent) (caller : Caller) (r : Round) (loop : EventLoop)
    → IsAt loop.work_queue.is_closed r
    → Stays (owed caller) loop (after_round send caller r loop)
unfolding after_round
after_round-Stays send caller (again st) loop at =
    (refl, record { completion_queue = refl; wakeups = refl; closed = at })
after_round-Stays send caller (stop false st) loop at =
    closing-Stays caller send _ _ loop _
      (record { completion_queue = refl; wakeups = refl; closed = at })
after_round-Stays send epoll_event (stop true st) loop at =
    (refl, record { completion_queue = refl; wakeups = refl; closed = at })
after_round-Stays send completion (stop true st) loop at =
    begin_writable-Stays completion _ loop _
      (record { completion_queue = refl; wakeups = refl; closed = at })

pub parse_step-Stays :
    (config : EventLoopConfig) (os : Os) (caller : Caller) (id : ℕ) (loop : EventLoop)
    → Stays (owed caller) loop (parse_step config os caller id loop)
unfolding parse_step
parse_step-Stays config os caller id loop = elim (Option-cases (find_current id loop.connections)) [
  | inl e ↦ rw (e, parse_step) (owed-back_to caller, Calm-refl loop)
  | inr (c, e) ↦
      rw (e, parse_step)
        (after_round-Stays os.send caller _ loop (
          round-IsAt config.max_in_flight_per_connection
            (record { connection = c; work_queue = loop.work_queue })))
]

after_record-Stays :
    (send : Bytes → Sent) (r : Bool × Connection) (loop : EventLoop)
    → Stays 1 loop (after_record send r loop)
unfolding after_record
after_record-Stays send (true, c) loop =
    (refl, record { completion_queue = refl; wakeups = refl; closed = refl })
after_record-Stays send (false, c) loop =
    closing-Stays completion send _ _ loop _
      (record { completion_queue = refl; wakeups = refl; closed = refl })

pub on_completion-Stays :
    (send : Bytes → Sent) (done : Completion) (loop : EventLoop)
    → Stays 1 loop (on_completion send done loop)
unfolding on_completion
on_completion-Stays send done loop =
    elim (Option-cases
      (find_connection done.connection_id done.connection_generation loop.connections)) [
        | inl e ↦ rw (e, on_completion) (refl, Calm-refl loop)
        | inr (c, e) ↦ rw (e, on_completion) (after_record-Stays send _ loop)
      ]
