-- ===== src/Net/EventLoop/Rounds.antt =====
-- The rounds of `process_input` of src/net/event_loop.cpp.
use cpp_kv_store.Base.{
  ℕ, zero, suc, ◌≤◌, ◌<◌, Bytes, Bool, true, false, some, List, [], ◌∷◌, length, leb, ◌≡◌, refl, ap,
  ◌∙◌, arith, length-drop, Bool-cases, inl, inr, ◌⊎◌,
}
use cpp_kv_store.Protocol.Command.{ParseResult, complete, need_more_data, protocol_error}
use cpp_kv_store.Protocol.Parser.{parse_command}
use cpp_kv_store.Protocol.Parser.Stream.{settled, IsSettled, parse_command-settled_bounds}
use cpp_kv_store.Net.BoundedBuffer.{BoundedBuffer, append, consume}
use cpp_kv_store.Net.ConnectionRegistry.{Connection}
use cpp_kv_store.Net.ResponseSequencer.{in_flight_count}
use cpp_kv_store.Net.EventLoop.{
  LoopState, Round, stop, again, push_responses, respond, begin_request, answered, after_push,
  on_command, on_recoverable, on_fatal, on_result, round, process_input,
}
use cpp_kv_store.Worker.Items.{WorkItem}
use cpp_kv_store.Worker.BoundedQueue.{BoundedQueue, PushStatus}

-- Responses do not touch the input.
input-push_responses :
    (ready : List Bytes) (c : Connection) → (push_responses ready c).1.input ≡ c.input
unfolding push_responses
input-push_responses [] c = refl
input-push_responses (response ∷ ready) c =
    let rest = input-push_responses ready (record c { output = (append response c.output).1 }) in
    elim (Bool-cases (append response c.output).0) [ inl e ↦ rw e rest | inr e ↦ rw e refl ]

input-respond :
    (sequence : ℕ) (response : Bytes) (c : Connection)
    → (respond sequence response c).1.input ≡ c.input
unfolding respond
input-respond sequence response c = input-push_responses _ _

answered-again :
    (r : Bool × Connection) (queue : BoundedQueue WorkItem) (st : LoopState)
    → answered r queue ≡ again st
    → st.connection.input ≡ r.1.input
unfolding answered
answered-again (true, c) queue st h = cc
answered-again (false, c) queue st h = cc

after_push-again :
    (status : PushStatus) (sequence : ℕ) (c : Connection) (queue : BoundedQueue WorkItem)
    (st : LoopState)
    → after_push status sequence c queue ≡ again st
    → st.connection.input ≡ c.input
unfolding after_push
after_push-again PushStatus.ok sequence c queue st h = cc
after_push-again PushStatus.closed sequence c queue st h =
    answered-again _ queue st h ∙ input-respond sequence _ c
after_push-again PushStatus.full sequence c queue st h =
    answered-again _ queue st h ∙ input-respond sequence _ c

consume_shrinks :
    (n : ℕ) (b : BoundedBuffer)
    → 0 < n
    → n ≤ length b.bytes
    → length (consume n b).bytes < length b.bytes
unfolding consume
consume_shrinks n b low high = ground (arith, length-drop n b.bytes)

abbrev left : LoopState → ℕ
left st = length st.connection.input.bytes

-- A parse result that lets the loop go on has taken bytes off the input.
on_result_shrinks :
    (r : ParseResult) (st st' : LoopState)
    → (IsSettled r → (0 < settled r) × (settled r ≤ left st))
    → on_result r st ≡ again st'
    → left st' < left st
unfolding on_result on_command on_recoverable on_fatal begin_request
on_result_shrinks need_more_data st st' bounds h = cc
on_result_shrinks (complete p) st st' bounds h =
    let b = bounds tt in
    let same = after_push-again _ _ _ _ st' h in
    let shorter = consume_shrinks p.consumed_bytes st.connection.input b.0 b.1 in
    let count = ap (λ (i : BoundedBuffer). length i.bytes) same in omega arith
on_result_shrinks (protocol_error e) st st' bounds h = elim (Bool-cases e.recoverable) [
  | inl goes ↦
      let b = bounds goes in
      let same = answered-again _ _ st' (rw goes at h) ∙ input-respond _ _ _ in
      let shorter = consume_shrinks e.consumed_bytes st.connection.input b.0 b.1 in
      let count = ap (λ (i : BoundedBuffer). length i.bytes) same in omega arith
  | inr fatal ↦ let g = (rw fatal at h) in cc
]

round_shrinks :
    (max_in_flight : ℕ) (st st' : LoopState)
    → round max_in_flight st ≡ again st'
    → left st' < left st
unfolding round
round_shrinks max_in_flight st st' h =
    elim (Bool-cases (leb max_in_flight (in_flight_count st.connection.sequencer))) [
      | inl e ↦ let g = (rw e at h) in cc
      | inr e ↦
          on_result_shrinks (parse_command st.connection.input.bytes) st st'
            (parse_command-settled_bounds st.connection.input.bytes).0 (rw e at h)
    ]

pub Round-cases :
    (r : Round)
    → ((still : Bool) × ((st : LoopState) × (r ≡ stop still st)))
      ⊎ ((st : LoopState) × (r ≡ again st))
Round-cases (stop still st) = inl (still, (st, refl))
Round-cases (again st) = inr (st, refl)

process_input-fuel :
    (fuel max_in_flight : ℕ) (st : LoopState)
    → left st < fuel
    → (r : Bool × LoopState) × (process_input fuel max_in_flight st ≡ some r)
unfolding process_input
process_input-fuel zero max_in_flight st room = absurd (omega arith)
process_input-fuel (suc fuel) max_in_flight st room = elim (Round-cases (round max_in_flight st)) [
  | inl (still, (st', e)) ↦ ((still, st'), rw (e, process_input) refl)
  | inr (st', e) ↦
      let less = round_shrinks max_in_flight st st' e in
      let rest = process_input-fuel fuel max_in_flight st' (omega arith) in
      (rest.0, rw (e, process_input) rest.1)
]

-- The loop ends: with fuel for one round more than the input has bytes it returns, whatever the
-- connection, the work queue and the cap on requests in flight.
pub process_input-returns :
    (max_in_flight : ℕ) (st : LoopState)
    → (r : Bool × LoopState) × (process_input
          (suc (length st.connection.input.bytes))
          max_in_flight
          st
        ≡ some r)
process_input-returns max_in_flight st =
    process_input-fuel (suc (left st)) max_in_flight st (omega arith)
