-- ===== src/Net/EventLoop/Balance/Turns.antt =====
-- The rounds of `process_input` of src/net/event_loop.cpp: what each leaves of the requests.
use cpp_kv_store.Base.{
  ℕ, ◌+◌, ◌≤◌, ◌<◌, ◌==◌, Bytes, Bool, true, false, [], ◌∷◌, length, leb, ◌≡◌, refl, ap, subst, ◌∙◌,
  arith, Bool-cases, inl, inr,
}
use cpp_kv_store.Base.Totals.{total, total-append}
use cpp_kv_store.Storage.Time.{word}
use cpp_kv_store.Protocol.Command.{ParseResult, complete, need_more_data, protocol_error}
use cpp_kv_store.Net.BoundedBuffer.{BoundedBuffer}
use cpp_kv_store.Net.ResponseSequencer.{ResponseSequencer, take_request_sequence, in_flight_count}
use cpp_kv_store.Net.ResponseSequencer.Accounts.{one_if, Accounts-ext, Accounts-record_response}
use cpp_kv_store.Net.ConnectionRegistry.{Connection}
use cpp_kv_store.Net.EventLoop.{
  LoopState, Round, stop, again, respond, begin_request, answered, after_push, on_command,
  on_recoverable, on_fatal, on_result, round,
}
use cpp_kv_store.Worker.BoundedQueue.{BoundedQueue, try_push}
use cpp_kv_store.Worker.Items.{WorkItem}
use cpp_kv_store.Worker.Pool.Tokens.{of_item}
use cpp_kv_store.Net.EventLoop.Balance.{
  request_at, queued, IsBalanced, Keeps-respond, IsBalanced-respond, IsBalanced-take,
}

module _ (max_in_flight : ℕ) (elsewhere : ℕ → ℕ) where
  -- What a round does.
  pub record Turn (c : Connection) (queue : BoundedQueue WorkItem) (to : LoopState) : Type 0 where
    pub balanced : IsBalanced max_in_flight elsewhere to.connection to.work_queue
    pub id : to.connection.id ≡ c.id
    pub generation : to.connection.generation ≡ c.generation
    pub requests :
        to.connection.sequencer.next_request_sequence ≤ c.sequencer.next_request_sequence + 1
    pub others :
        (f : ℕ → ℕ → ℕ → ℕ)
        → ((s : ℕ) → f c.id c.generation s ≡ 0)
        → total (of_item f) to.work_queue.items ≡ total (of_item f) queue.items

  abbrev pub state_of : Round → LoopState
  state_of (stop still st) = st
  state_of (again st) = st

  pub Turn-respond :
      (sequence : ℕ) (response : Bytes) (before c : Connection) (queue : BoundedQueue WorkItem)
      → IsBalanced max_in_flight (λ k. one_if (sequence == k) + elsewhere k) c queue
      → c.id ≡ before.id
      → c.generation ≡ before.generation
      → c.sequencer.next_request_sequence ≤ before.sequencer.next_request_sequence + 1
      → Turn before queue
          (record { connection = (respond sequence response c).1; work_queue = queue })
  Turn-respond sequence response before c queue b same_id same_generation few =
      let k = Keeps-respond sequence response c in
      let o =
        (Accounts-record_response (λ k. queued c k queue + elsewhere k) sequence response
          c.sequencer (Accounts-ext _ _ c.sequencer (λ k. omega arith) b.accounts)).1.requests in
      record {
        balanced = IsBalanced-respond max_in_flight elsewhere sequence response c queue b;
        id = k.id ∙ same_id;
        generation = k.generation ∙ same_generation;
        requests =
            omega (arith, ap (λ (s : ResponseSequencer). s.next_request_sequence) k.sequencer, o);
        others = λ f none_here. refl;
      }

  state_of-answered :
      (r : Bool × Connection) (queue : BoundedQueue WorkItem)
      → record { connection = r.1; work_queue = queue } ≡ state_of (answered r queue)
  unfolding answered
  state_of-answered (true, c) queue = refl
  state_of-answered (false, c) queue = refl

  Turn-answered :
      (sequence : ℕ) (response : Bytes) (before c : Connection) (queue : BoundedQueue WorkItem)
      → IsBalanced max_in_flight (λ k. one_if (sequence == k) + elsewhere k) c queue
      → c.id ≡ before.id
      → c.generation ≡ before.generation
      → c.sequencer.next_request_sequence ≤ before.sequencer.next_request_sequence + 1
      → Turn before queue (state_of (answered (respond sequence response c) queue))
  Turn-answered sequence response before c queue b same_id same_generation few =
      subst (Turn before queue) (state_of-answered (respond sequence response c) queue)
        (Turn-respond sequence response before c queue b same_id same_generation few)

  Turn-none :
      (c : Connection) (queue : BoundedQueue WorkItem)
      → IsBalanced max_in_flight elsewhere c queue
      → Turn c queue (record { connection = c; work_queue = queue })
  Turn-none c queue b = record {
    balanced = b;
    id = refl;
    generation = refl;
    requests = omega arith;
    others = λ f none_here. refl;
  }

  Turn-pushed :
      (item : WorkItem) (before c : Connection) (queue : BoundedQueue WorkItem)
      → IsBalanced max_in_flight (λ k. one_if (item.sequence == k) + elsewhere k) c queue
      → item.connection_id ≡ c.id
      → item.connection_generation ≡ c.generation
      → c.id ≡ before.id
      → c.generation ≡ before.generation
      → c.sequencer.next_request_sequence ≤ before.sequencer.next_request_sequence + 1
      → Turn before queue
          (state_of (after_push (try_push item queue).0 item.sequence c (try_push item queue).1))
  unfolding after_push try_push
  Turn-pushed item before c queue b mine mine' same_id same_generation few =
      let refused = λ (response : Bytes).
        Turn-answered item.sequence response before c queue b same_id same_generation few in
      elim (Bool-cases queue.is_closed) [
        | inl e ↦ simp e (refused _)
        | inr e ↦ elim (Bool-cases (leb queue.capacity (length queue.items))) [
          | inl f ↦ simp (e, f) (refused _)
          | inr f ↦
              simp (e, f)
                (record {
                  balanced = record {
                    accounts =
                        Accounts-ext _ _ c.sequencer
                          (λ k.
                            let sum =
                              total-append (of_item (request_at c.id c.generation k)) queue.items
                                (item ∷ []) in
                            ground arith)
                          b.accounts;
                    capped = b.capped;
                    released = b.released;
                  };
                  id = same_id;
                  generation = same_generation;
                  requests = few;
                  others = λ g none_here.
                      let sum = total-append (of_item g) queue.items (item ∷ []) in
                      let zero_here : of_item g item ≡ 0 =
                        ap (λ i. g i item.connection_generation item.sequence) (mine ∙ same_id)
                        ∙ ap (λ j. g before.id j item.sequence) (mine' ∙ same_generation)
                        ∙ none_here item.sequence in
                      omega arith;
                })
        ]
      ]

  Turn-on_result :
      (r : ParseResult) (st : LoopState)
      → in_flight_count st.connection.sequencer < max_in_flight
      → st.connection.sequencer.next_request_sequence + 1 < word
      → IsBalanced max_in_flight elsewhere st.connection st.work_queue
      → Turn st.connection st.work_queue (state_of (on_result r st))
  unfolding on_result on_command on_recoverable on_fatal begin_request take_request_sequence
  Turn-on_result need_more_data st free room b = Turn-none st.connection st.work_queue b
  Turn-on_result (complete p) st free room b =
      Turn-pushed _ st.connection _ st.work_queue
        (IsBalanced-take max_in_flight elsewhere st.connection st.work_queue free room b _) refl
        refl refl refl (omega arith)
  Turn-on_result (protocol_error e) st free room b =
      let begun = λ (input : BoundedBuffer).
        IsBalanced-take max_in_flight elsewhere st.connection st.work_queue free room b input in
      elim (Bool-cases e.recoverable) [
        | inl goes ↦
            simp goes
              (Turn-answered _ _ st.connection _ st.work_queue (begun _) refl refl (omega arith))
        | inr fatal ↦
            simp fatal
              (Turn-respond _ _ st.connection _ st.work_queue (begun _) refl refl (omega arith))
      ]

  pub Turn-round :
      (st : LoopState)
      → st.connection.sequencer.next_request_sequence + 1 < word
      → IsBalanced max_in_flight elsewhere st.connection st.work_queue
      → Turn st.connection st.work_queue (state_of (round max_in_flight st))
  unfolding round
  Turn-round st room b =
      elim (Bool-cases (leb max_in_flight (in_flight_count st.connection.sequencer))) [
        | inl e ↦ rw e (Turn-none st.connection st.work_queue b)
        | inr e ↦ rw e (Turn-on_result _ st (ground arith) room b)
      ]
