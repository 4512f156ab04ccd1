-- ===== src/Net/EventLoop/Balance.antt =====
-- `process_input` of src/net/event_loop.cpp: what it does with the sequence numbers of the requests.
pub mod Turns
pub mod Inputs
use cpp_kv_store.Base.{
  ℕ, ◌+◌, ◌-◌, ◌≤◌, ◌<◌, ◌==◌, Bytes, ◌&&◌, none, List, [], ◌∷◌, if◌then◌else◌, ◌≡◌, refl, arith,
  Bool-cases, inl, inr,
}
use cpp_kv_store.Base.Totals.{total}
use cpp_kv_store.Storage.Time.{word}
use cpp_kv_store.Net.BoundedBuffer.{BoundedBuffer, append}
use cpp_kv_store.Net.ResponseSequencer.{
  ResponseSequencer, take_request_sequence, in_flight_count, record_response,
}
use cpp_kv_store.Net.ResponseSequencer.Accounts.{
  one_if, Accounts, Accounts-ext, Accounts-take_request_sequence, Accounts-record_response,
  in_flight_count_lem, next_expected-le, record_response-none,
}
use cpp_kv_store.Base.Assoc.{nat_eq, find}
use cpp_kv_store.Net.ConnectionRegistry.{Connection}
use cpp_kv_store.Net.EventLoop.{push_responses, respond}
use cpp_kv_store.Worker.BoundedQueue.{BoundedQueue}
use cpp_kv_store.Worker.Items.{WorkItem}
use cpp_kv_store.Worker.Pool.Tokens.{of_item}

-- One for the request of that connection, generation and sequence number, and nothing for others.
abbrev pub request_at : ℕ → ℕ → ℕ → ℕ → ℕ → ℕ → ℕ
request_at id generation k i g s = one_if ((i == id) && ((g == generation) && (s == k)))

-- How often the request is in the work queue.
abbrev pub queued : Connection → ℕ → BoundedQueue WorkItem → ℕ
queued c k queue = total (of_item (request_at c.id c.generation k)) queue.items

abbrev pub IsCapped : ℕ → ResponseSequencer → Type 0
IsCapped max_in_flight s = s.next_request_sequence ≤ s.next_expected + max_in_flight

-- Each request of the connection is at one place: the work queue, elsewhere, pending or released;
-- no more than the cap are in flight; and the next expected response is not pending.
pub record IsBalanced (max_in_flight : ℕ) (elsewhere : ℕ → ℕ) (c : Connection)
    (queue : BoundedQueue WorkItem) : Type 0 where
  pub accounts : Accounts (λ k. queued c k queue + elsewhere k) c.sequencer
  pub capped : IsCapped max_in_flight c.sequencer
  pub released : find c.sequencer.next_expected c.sequencer.pending ≡ none

-- What responses leave of a connection.
pub record Keeps (c to : Connection) (s : ResponseSequencer) : Type 0 where
  pub id : to.id ≡ c.id
  pub generation : to.generation ≡ c.generation
  pub sequencer : to.sequencer ≡ s

Keeps-push_responses :
    (ready : List Bytes) (c : Connection) → Keeps c (push_responses ready c).1 c.sequencer
unfolding push_responses
Keeps-push_responses [] c = record { id = refl; generation = refl; sequencer = refl }
Keeps-push_responses (response ∷ ready) c =
    let rest = Keeps-push_responses ready (record c { output = (append response c.output).1 }) in
    elim (Bool-cases (append response c.output).0) [
      | inl e ↦
          rw e (record { id = rest.id; generation = rest.generation; sequencer = rest.sequencer })
      | inr e ↦ rw e (record { id = refl; generation = refl; sequencer = refl })
    ]

pub Keeps-respond :
    (sequence : ℕ) (response : Bytes) (c : Connection)
    → Keeps c (respond sequence response c).1 (record_response sequence response c.sequencer).1
unfolding respond
Keeps-respond sequence response c =
    let r = record_response sequence response c.sequencer in
    let k = Keeps-push_responses r.0 (record c { sequencer = r.1 }) in
    record { id = k.id; generation = k.generation; sequencer = k.sequencer }

module _ (max_in_flight : ℕ) (elsewhere : ℕ → ℕ) where
  -- A request whose response comes from elsewhere is answered.
  pub IsBalanced-respond :
      (sequence : ℕ) (response : Bytes) (c : Connection) (queue : BoundedQueue WorkItem)
      → IsBalanced max_in_flight (λ k. one_if (sequence == k) + elsewhere k) c queue
      → IsBalanced max_in_flight elsewhere (respond sequence response c).1 queue
  IsBalanced-respond sequence response c queue b =
      let k = Keeps-respond sequence response c in
      let a =
        Accounts-record_response (λ k. queued c k queue + elsewhere k) sequence response c.sequencer
          (Accounts-ext _ _ c.sequencer (λ k. omega arith) b.accounts) in
      record {
        accounts = rw (k.id, k.generation, k.sequencer) a.0;
        capped =
            let n = a.1.requests in
            let f = a.1.further in let z = b.capped in rw k.sequencer (omega arith);
        released = rw k.sequencer (record_response-none sequence response c.sequencer);
      }

  -- A request that begins is one more whose response is still to come.
  pub IsBalanced-take :
      (c : Connection) (queue : BoundedQueue WorkItem)
      → in_flight_count c.sequencer < max_in_flight
      → c.sequencer.next_request_sequence + 1 < word
      → IsBalanced max_in_flight elsewhere c queue
      → (input : BoundedBuffer)
      → IsBalanced max_in_flight
          (λ k. one_if (c.sequencer.next_request_sequence == k) + elsewhere k)
          (record c { input = input; sequencer = (take_request_sequence c.sequencer).1 })
          queue
  IsBalanced-take c queue free room b input = record {
    accounts =
        Accounts-ext _ _ _ (λ k. omega arith)
          (Accounts-take_request_sequence (λ k. queued c k queue + elsewhere k) c.sequencer
            b.accounts room);
    capped =
        unfold take_request_sequence in
        (let n = in_flight_count_lem _ c.sequencer b.accounts in
          let l = next_expected-le _ c.sequencer b.accounts in omega arith);
    released = unfold take_request_sequence in b.released;
  }
