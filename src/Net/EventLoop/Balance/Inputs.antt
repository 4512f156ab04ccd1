-- ===== src/Net/EventLoop/Balance/Inputs.antt =====
-- All rounds of `process_input` of src/net/event_loop.cpp: what they leave of the requests.
use cpp_kv_store.Base.{
  ℕ, zero, suc, ◌+◌, ◌<◌, ◌==◌, Bool, some, ◌≡◌, ap, subst, ◌∙◌, arith, inl, inr, if◌then◌else◌,
  ◌&&◌,
}
use cpp_kv_store.Base.Totals.{total}
use cpp_kv_store.Storage.Time.{word}
use cpp_kv_store.Net.ConnectionRegistry.{Connection}
use cpp_kv_store.Net.EventLoop.{LoopState, Round, round, process_input}
use cpp_kv_store.Net.EventLoop.Rounds.{Round-cases}
use cpp_kv_store.Worker.Pool.Tokens.{of_item}
use cpp_kv_store.Net.EventLoop.Balance.{IsBalanced}
use cpp_kv_store.Net.EventLoop.Balance.Turns.{Turn, Turn-round, state_of}

-- What the rounds of `process_input` do.
record Outcome (max_in_flight : ℕ) (elsewhere : ℕ → ℕ) (st to : LoopState) : Type 0 where
  balanced : IsBalanced max_in_flight elsewhere to.connection to.work_queue
  id : to.connection.id ≡ st.connection.id
  generation : to.connection.generation ≡ st.connection.generation
  others :
      (f : ℕ → ℕ → ℕ → ℕ)
      → ((s : ℕ) → f st.connection.id st.connection.generation s ≡ 0)
      → total (of_item f) to.work_queue.items ≡ total (of_item f) st.work_queue.items

process_input-Outcome :
    (max_in_flight : ℕ) (elsewhere : ℕ → ℕ) (fuel : ℕ) (st to : LoopState) (still : Bool)
    → st.connection.sequencer.next_request_sequence + fuel < word
    → IsBalanced max_in_flight elsewhere st.connection st.work_queue
    → process_input fuel max_in_flight st ≡ some (still, to)
    → Outcome max_in_flight elsewhere st to
unfolding process_input
process_input-Outcome max_in_flight elsewhere zero st to still room b h = cc
process_input-Outcome max_in_flight elsewhere (suc fuel) st to still room b h =
    let turn = Turn-round max_in_flight elsewhere st (omega arith) b in
    let turned = λ (r : Round) (e : round max_in_flight st ≡ r).
      subst
        (λ q.
          Turn max_in_flight elsewhere st.connection st.work_queue
            (state_of max_in_flight elsewhere q))
        e turn in
    elim (Round-cases (round max_in_flight st)) [
      | inl (ended, (st', e)) ↦
          let same : st' ≡ to = (let k = (rw (e, process_input) at h) in cc) in
          let t = turned _ e in
          subst (Outcome max_in_flight elsewhere st) same (record {
            balanced = t.balanced;
            id = t.id;
            generation = t.generation;
            others = t.others;
          })
      | inr (st', e) ↦
          let t = turned _ e in
          let n = t.requests in
          let rest =
            process_input-Outcome max_in_flight elsewhere fuel st' to still (omega arith) t.balanced
              (rw (e, process_input) at h) in
          record {
            balanced = rest.balanced;
            id = rest.id ∙ t.id;
            generation = rest.generation ∙ t.generation;
            others = λ f none_here.
                rest.others f (λ s.
                  ap (λ i. f i st'.connection.generation s) t.id
                  ∙ ap (λ g. f st.connection.id g s) t.generation
                  ∙ none_here s)
                ∙ t.others f none_here;
          }
    ]

-- A number for each request of the other connections.
abbrev pub besides : Connection → (ℕ → ℕ → ℕ → ℕ) → ℕ → ℕ → ℕ → ℕ
besides c f i g s = if (i == c.id) && (g == c.generation) then 0 else f i g s

-- If the requests taken so far and the rounds allowed are fewer than 2 ^ 64 in all, and before
-- `process_input` each request of the connection is at one place (work queue, elsewhere, pending or
-- released) and no more than the cap are in flight, both hold after it, and what stands elsewhere is
-- as it was. The connection keeps its id and its generation. Whatever number is given to each request
-- of the other connections, the sum over the work queue stays the same.
pub process_input-IsBalanced :
    (max_in_flight : ℕ) (elsewhere : ℕ → ℕ) (fuel : ℕ) (st to : LoopState) (still : Bool)
    → st.connection.sequencer.next_request_sequence + fuel < word
    → IsBalanced max_in_flight elsewhere st.connection st.work_queue
    → process_input fuel max_in_flight st ≡ some (still, to)
    → IsBalanced max_in_flight elsewhere to.connection to.work_queue
      × (to.connection.id ≡ st.connection.id)
      × (to.connection.generation ≡ st.connection.generation)
      × ((f : ℕ → ℕ → ℕ → ℕ)
          → total (of_item (besides st.connection f)) to.work_queue.items
            ≡ total (of_item (besides st.connection f)) st.work_queue.items)
process_input-IsBalanced max_in_flight elsewhere fuel st to still room b h =
    let o = process_input-Outcome max_in_flight elsewhere fuel st to still room b h in
    (o.balanced, o.id, o.generation, λ f. o.others (besides st.connection f) (λ s. ground arith))
