-- ===== src/Server/Attended/Steps.antt =====
-- `process_input`, `drain_completions` and `handle_listener_readable` of src/net/event_loop.cpp leave
-- every connection settled and shown.
use cpp_kv_store.Base.{
  ℕ, Bytes, Bool, true, false, Option, none, some, ◌≡◌, ◌≢◌, refl, sym, ◌∙◌, subst, arith, inl, inr,
  Bool-cases, Option-cases, leb,
}
use cpp_kv_store.Base.Assoc.{nat_eq}
use cpp_kv_store.Protocol.Command.{need_more_data, complete, protocol_error, ParseResult}
use cpp_kv_store.Protocol.Parser.{parse_command}
use cpp_kv_store.Net.ConnectionRegistry.{Connection, find_connection, find_current}
use cpp_kv_store.Net.ResponseSequencer.{in_flight_count}
use cpp_kv_store.Net.Io.{Sent}
use cpp_kv_store.Net.EventLoop.{
  LoopState, Round, stop, again, respond, answered, after_push, begin_request, on_command,
  on_recoverable, on_fatal, on_result, round,
}
use cpp_kv_store.Net.EventLoop.Closing.{find_connection-some}
use cpp_kv_store.Net.EventLoop.Balance.{Keeps-respond}
use cpp_kv_store.Net.EventLoop.Steps.{
  EventLoop, EventLoopConfig, Caller, epoll_event, completion, waiting, draining, reading, parsing,
  back_to, Os, after_round, parse_step, after_record, on_completion, after_try_pop, drain_step,
}
use cpp_kv_store.Worker.BoundedQueue.{BoundedQueue, PushStatus, try_pop}
use cpp_kv_store.Worker.Items.{WorkItem, Completion}
use cpp_kv_store.Server.Attended.{IsSettled, IsAttended, Others, IsAttended-any}
use cpp_kv_store.Server.Attended.Handlers.{
  Ends, IsAttended-put, working, under_parser, close_put-IsAttended, begin_writable-Ends, split,
  missing,
}

answered-returns :
    (r : Bool × Connection) (queue : BoundedQueue WorkItem) (st : LoopState)
    → answered r queue ≢ stop true st
unfolding answered
answered-returns (true, c) queue st h = cc
answered-returns (false, c) queue st h = cc

after_push-returns :
    (status : PushStatus) (sequence : ℕ) (c : Connection) (queue : BoundedQueue WorkItem)
    (st : LoopState)
    → after_push status sequence c queue ≢ stop true st
unfolding after_push
after_push-returns PushStatus.ok sequence c queue st h = cc
after_push-returns PushStatus.closed sequence c queue st h = answered-returns _ queue st h
after_push-returns PushStatus.full sequence c queue st h = answered-returns _ queue st h

-- `process_input` returns true only where the cap is reached or the input holds no whole frame, and
-- changes nothing then.
on_result-returns :
    (r : ParseResult) (st to : LoopState)
    → on_result r st ≡ stop true to
    → (to ≡ st) × (r ≡ need_more_data)
unfolding on_result on_command on_recoverable on_fatal
on_result-returns need_more_data st to h = (cc, refl)
on_result-returns (complete p) st to h = absurd (after_push-returns _ _ _ _ to h)
on_result-returns (protocol_error e) st to h = elim (Bool-cases e.recoverable) [
  | inl goes ↦ absurd (answered-returns _ _ to (rw goes at h))
  | inr fatal ↦ let k = (rw fatal at h) in cc
]

round-returns :
    (max_in_flight : ℕ) (st to : LoopState)
    → round max_in_flight st ≡ stop true to
    → (to ≡ st) × IsSettled max_in_flight st.connection
unfolding round
round-returns max_in_flight st to h =
    elim (Bool-cases (leb max_in_flight (in_flight_count st.connection.sequencer))) [
      | inl e ↦ let k = (rw e at h) in (cc, inl (ground arith))
      | inr e ↦
          let k = on_result-returns (parse_command st.connection.input.bytes) st to (rw e at h) in
          (k.0, inr k.1)
    ]

abbrev connection_of_round : Round → Connection
connection_of_round (again st) = st.connection
connection_of_round (stop still st) = st.connection

answered-own :
    (r : Bool × Connection) (queue : BoundedQueue WorkItem)
    → (connection_of_round (answered r queue)).id ≡ r.1.id
unfolding answered
answered-own (true, c) queue = refl
answered-own (false, c) queue = refl

after_push-own :
    (status : PushStatus) (sequence : ℕ) (c : Connection) (queue : BoundedQueue WorkItem)
    → (connection_of_round (after_push status sequence c queue)).id ≡ c.id
unfolding after_push
after_push-own PushStatus.ok sequence c queue = refl
after_push-own PushStatus.closed sequence c queue =
    answered-own _ queue ∙ (Keeps-respond sequence _ c).id
after_push-own PushStatus.full sequence c queue =
    answered-own _ queue ∙ (Keeps-respond sequence _ c).id

on_result-own :
    (r : ParseResult) (st : LoopState)
    → (connection_of_round (on_result r st)).id ≡ st.connection.id
unfolding on_result on_command on_recoverable on_fatal begin_request
on_result-own need_more_data st = refl
on_result-own (complete p) st = after_push-own _ _ _ _
on_result-own (protocol_error e) st = elim (Bool-cases e.recoverable) [
  | inl goes ↦ rw goes (answered-own _ _ ∙ (Keeps-respond _ _ _).id)
  | inr fatal ↦ rw fatal (Keeps-respond _ _ _).id
]

round-own :
    (max_in_flight : ℕ) (st : LoopState)
    → (connection_of_round (round max_in_flight st)).id ≡ st.connection.id
unfolding round
round-own max_in_flight st =
    elim (Bool-cases (leb max_in_flight (in_flight_count st.connection.sequencer))) [
      | inl e ↦ rw e refl
      | inr e ↦ rw e (on_result-own (parse_command st.connection.input.bytes) st)
    ]

module _ (max_in_flight : ℕ) where
  after_round-Ends :
      (send : Bytes → Sent) (caller : Caller) (r : Round) (loop : EventLoop)
      → Others max_in_flight (connection_of_round r).id loop
      → ((st : LoopState) → r ≡ stop true st → IsSettled max_in_flight st.connection)
      → Ends max_in_flight (after_round send caller r loop)
  unfolding after_round
  after_round-Ends send caller (again st) loop o s =
      IsAttended-put max_in_flight (parsing caller st.connection.id) st.connection
        (record loop { work_queue = st.work_queue }) o
        (under_parser max_in_flight caller st.connection
          (record loop { work_queue = st.work_queue }))
  after_round-Ends send caller (stop false st) loop o s =
      close_put-IsAttended max_in_flight (back_to caller) send st.connection
        (record loop { work_queue = st.work_queue }) o
  after_round-Ends send epoll_event (stop true st) loop o s =
      IsAttended-put max_in_flight (reading st.connection.id) st.connection
        (record loop { work_queue = st.work_queue }) o
        (working max_in_flight (reading st.connection.id) st.connection
          (record loop { work_queue = st.work_queue }) (ground arith) (s st refl))
  after_round-Ends send completion (stop true st) loop o s =
      begin_writable-Ends max_in_flight completion st.connection
        (record loop { work_queue = st.work_queue }) o (s st refl)

  pub parse_step-Ends :
      (config : EventLoopConfig) (os : Os) (caller : Caller) (id : ℕ) (loop : EventLoop)
      → config.max_in_flight_per_connection ≡ max_in_flight
      → IsAttended max_in_flight (parsing caller id) loop
      → Ends max_in_flight (parse_step config os caller id loop)
  unfolding parse_step
  parse_step-Ends config os caller id loop cap a =
      elim (Option-cases (find_current id loop.connections)) [
        | inl e ↦
            rw (e, parse_step)
              (missing max_in_flight (parsing caller id) (back_to caller) id loop (λ j h. h) e a)
        | inr (c, e) ↦
            let k = split max_in_flight (parsing caller id) id c loop (λ j h. h) a e in
            let st : LoopState = record { connection = c; work_queue = loop.work_queue } in
            rw (e, parse_step, cap)
              (after_round-Ends os.send caller (round max_in_flight st) loop
                (subst (λ i. Others max_in_flight i loop) (sym (round-own max_in_flight st)) k.1)
                (λ to h.
                  let q = round-returns max_in_flight st to h in
                  subst (λ (x : LoopState). IsSettled max_in_flight x.connection) (sym q.0) q.1))
      ]

  after_record-Ends :
      (send : Bytes → Sent) (r : Bool × Connection) (loop : EventLoop)
      → Others max_in_flight r.1.id loop
      → Ends max_in_flight (after_record send r loop)
  unfolding after_record
  after_record-Ends send (true, c) loop o =
      IsAttended-put max_in_flight (parsing completion c.id) c loop o
        (under_parser max_in_flight completion c loop)
  after_record-Ends send (false, c) loop o =
      close_put-IsAttended max_in_flight draining send c loop o

  after_try_pop-Ends :
      (send : Bytes → Sent) (popped : Option Completion) (loop : EventLoop)
      → IsAttended max_in_flight draining loop
      → Ends max_in_flight (after_try_pop send popped loop)
  unfolding after_try_pop on_completion find_current
  after_try_pop-Ends send none loop a =
      IsAttended-any max_in_flight draining waiting loop (λ j. refl) a
  after_try_pop-Ends send (some done) loop a =
      elim (Option-cases
        (find_connection done.connection_id done.connection_generation loop.connections)) [
          | inl gone ↦ rw (gone, on_completion) a
          | inr (c, found) ↦
              let f = find_connection-some _ _ loop.connections c found in
              let k = split max_in_flight draining done.connection_id c loop (λ j h. refl) a f.0 in
              rw (found, on_completion)
                (after_record-Ends send (respond done.sequence done.response c) loop (
                  subst (λ i. Others max_in_flight i loop)
                    (sym (Keeps-respond done.sequence done.response c).id) k.1))
        ]

  pub drain_step-Ends :
      (os : Os) (loop : EventLoop)
      → IsAttended max_in_flight draining loop
      → Ends max_in_flight (drain_step os loop)
  unfolding drain_step
  drain_step-Ends os loop a =
      after_try_pop-Ends os.send (try_pop loop.completion_queue).0
        (record loop { completion_queue = (try_pop loop.completion_queue).1 }) a
