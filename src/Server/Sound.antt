-- ===== src/Server/Sound.antt =====
-- Where the requests of src/net/event_loop.cpp and src/worker/worker_pool.cpp are: of each connection
-- that the event loop knows, every request is at one place.
pub mod Puts
pub mod Transfers
pub mod Moves
pub mod Drains
pub mod Accepts
pub mod Runs
use cpp_kv_store.Base.{
  ℕ, Bytes, ◌+◌, ◌≤◌, ◌<◌, ◌==◌, false, none, some, List, ◌≡◌, refl, sym, ◌∙◌, subst, arith, inl,
  inr, Bool-cases,
}
use cpp_kv_store.Base.Totals.{total}
use cpp_kv_store.Base.Assoc.{nat_eq, find}
use cpp_kv_store.Net.ConnectionRegistry.{Connection}
use cpp_kv_store.Net.ResponseSequencer.Accounts.{Accounts, Accounts-ext}
use cpp_kv_store.Net.EventLoop.Balance.{request_at, IsCapped}
use cpp_kv_store.Net.EventLoop.Steps.{EventLoop, close_connection}
use cpp_kv_store.Net.EventLoop.Closing.{close_connection-Closes}
use cpp_kv_store.Net.Io.{Sent}
use cpp_kv_store.Worker.Pool.{Worker}
use cpp_kv_store.Worker.Pool.Tokens.{of_item, of_completion, of_worker}

-- The sum over the requests in the queues and with the threads.
abbrev pub load_at : (ℕ → ℕ → ℕ → ℕ) → List Worker → EventLoop → ℕ
load_at f workers loop =
    total (of_item f) loop.work_queue.items
    + total (of_completion f) loop.completion_queue.items
    + total (of_worker f) workers

module _ (max_in_flight : ℕ) (workers : List Worker) where
  -- After so many steps, for the connection at a descriptor.
  pub record IsSoundConnection (n : ℕ) (loop : EventLoop) (id : ℕ) (c : Connection) : Type 0 where
    pub own : c.id ≡ id
    pub older : c.generation < loop.connections.next_generation
    pub accounts : Accounts (λ k. load_at (request_at id c.generation k) workers loop) c.sequencer
    pub capped : IsCapped max_in_flight c.sequencer
    pub few : c.sequencer.next_request_sequence ≤ n
    pub released : find c.sequencer.next_expected c.sequencer.pending ≡ none

  pub record IsSound (n : ℕ) (loop : EventLoop) : Type 0 where
    pub entries :
        (id : ℕ) (c : Connection)
        → find id loop.connections.connections ≡ some c
        → IsSoundConnection n loop id c
    -- No request is from a connection that is still to come.
    pub fresh :
        (id g k : ℕ)
        → loop.connections.next_generation ≤ g
        → load_at (request_at id g k) workers loop ≡ 0
    pub generations : loop.connections.next_generation ≤ n + 1
    pub opened : loop.completion_queue.is_closed ≡ false

  -- The connection at a descriptor changes, is added or goes, with its requests.
  pub record Changes (n id : ℕ) (loop to : EventLoop) : Type 0 where
    pub others :
        (j : ℕ) (d : Connection)
        → (id == j) ≡ false
        → find j to.connections.connections ≡ some d
        → find j loop.connections.connections ≡ some d
    pub older : loop.connections.next_generation ≤ to.connections.next_generation
    pub generations : to.connections.next_generation ≤ n + 2
    pub opened : to.completion_queue.is_closed ≡ false
    pub loads :
        (f : ℕ → ℕ → ℕ → ℕ)
        → ((g s : ℕ) → f id g s ≡ 0)
        → load_at f workers to ≡ load_at f workers loop
    pub fresh :
        (g k : ℕ) → to.connections.next_generation ≤ g → load_at (request_at id g k) workers to ≡ 0
    pub entry :
        (c : Connection)
        → find id to.connections.connections ≡ some c
        → IsSoundConnection (n + 1) to id c

  elsewhere_zero : (id j g k : ℕ) → (id == j) ≡ false → (h s : ℕ) → request_at j g k id h s ≡ 0
  elsewhere_zero id j g k other h s = ground arith

  pub Changes-IsSound :
      (n id : ℕ) (loop to : EventLoop) → IsSound n loop → Changes n id loop to → IsSound (n + 1) to
  Changes-IsSound n id loop to s ch = record {
    entries = λ j c h. elim (Bool-cases (id == j)) [
      | inl e ↦
          let same : id ≡ j = ground arith in
          subst (λ i. IsSoundConnection (n + 1) to i c) same
            (ch.entry c (subst (λ i. find i to.connections.connections ≡ some c) (sym same) h))
      | inr e ↦
          let old = s.entries j c (ch.others j c e h) in
          let o = old.older in
          let w = ch.older in
          let q = old.few in
          record {
            own = old.own;
            older = omega arith;
            accounts =
                Accounts-ext _ _ c.sequencer
                  (λ k.
                    sym (
                      ch.loads (request_at j c.generation k)
                        (elsewhere_zero id j c.generation k e)))
                  old.accounts;
            capped = old.capped;
            few = omega arith;
            released = old.released;
          }
    ];
    fresh = λ j g k h. elim (Bool-cases (id == j)) [
      | inl e ↦
          let same : id ≡ j = ground arith in
          subst (λ i. load_at (request_at i g k) workers to ≡ 0) same (ch.fresh g k h)
      | inr e ↦
          let w = ch.older in
          ch.loads (request_at j g k) (elsewhere_zero id j g k e) ∙ s.fresh j g k (omega arith)
    ];
    generations = let g = ch.generations in omega arith;
    opened = ch.opened;
  }

  -- The same after more steps.
  pub IsSound-later : (n : ℕ) (loop : EventLoop) → IsSound n loop → IsSound (n + 1) loop
  IsSound-later n loop s = record {
    entries = λ j c h.
        let old = s.entries j c h in
        let q = old.few in
        record {
          own = old.own;
          older = old.older;
          accounts = old.accounts;
          capped = old.capped;
          few = omega arith;
          released = old.released;
        };
    fresh = s.fresh;
    generations = let g = s.generations in omega arith;
    opened = s.opened;
  }

  pub close_connection-IsSound :
      (send : Bytes → Sent) (n id generation : ℕ) (loop : EventLoop)
      → IsSound n loop
      → IsSound n (close_connection send id generation loop)
  close_connection-IsSound send n id generation loop s =
      let to = close_connection send id generation loop in
      let k = close_connection-Closes send id generation loop (λ c h. (s.entries id c h).own) in
      let same : (f : ℕ → ℕ → ℕ → ℕ) → load_at f workers to ≡ load_at f workers loop =
        λ f. rw (k.work_queue, k.completion_queue) refl in
      let g = s.generations in
      let next = k.next_generation in
      record {
        entries = λ j c h.
            let old = s.entries j c (k.lookup j c h) in
            let o = old.older in
            record {
              own = old.own;
              older = omega arith;
              accounts =
                  Accounts-ext _ _ c.sequencer (λ q. sym (same (request_at j c.generation q)))
                    old.accounts;
              capped = old.capped;
              few = old.few;
              released = old.released;
            };
        fresh = λ j v q h. same (request_at j v q) ∙ s.fresh j v q (omega arith);
        generations = omega arith;
        opened = rw k.completion_queue s.opened;
      }
