-- ===== src/Server/Sound/Moves.antt =====
-- `process_input` of src/net/event_loop.cpp leaves every request at one place.
use cpp_kv_store.Base.{
  ℕ, Bytes, ◌+◌, ◌<◌, true, false, some, List, ◌≡◌, refl, arith, inl, inr, Option-cases,
}
use cpp_kv_store.Base.Totals.{total}
use cpp_kv_store.Base.Assoc.{nat_eq, find}
use cpp_kv_store.Storage.Time.{word}
use cpp_kv_store.Net.ConnectionRegistry.{Connection, find_current}
use cpp_kv_store.Net.ResponseSequencer.Accounts.{Accounts-ext}
use cpp_kv_store.Net.EventLoop.{LoopState, Round, stop, again}
use cpp_kv_store.Net.EventLoop.Balance.{request_at, queued, IsBalanced}
use cpp_kv_store.Net.EventLoop.Balance.Turns.{Turn, Turn-round, state_of}
use cpp_kv_store.Net.EventLoop.Steps.{
  EventLoop, EventLoopConfig, Caller, epoll_event, completion, after_round, parse_step, Os,
}
use cpp_kv_store.Net.Io.{Sent}
use cpp_kv_store.Worker.BoundedQueue.{BoundedQueue}
use cpp_kv_store.Worker.Items.{WorkItem, Completion}
use cpp_kv_store.Worker.Pool.{Worker}
use cpp_kv_store.Worker.Pool.Tokens.{of_item, of_completion, of_worker}
use cpp_kv_store.Server.Sound.{IsSound, IsSound-later, close_connection-IsSound}
use cpp_kv_store.Server.Sound.Puts.{put_with, put_with-IsSound, begin_writable-IsSound, current}

queued_same :
    (c to : Connection) (k : ℕ) (queue : BoundedQueue WorkItem)
    → to.id ≡ c.id
    → to.generation ≡ c.generation
    → queued to k queue ≡ total (of_item (request_at c.id c.generation k)) queue.items
queued_same c to k queue same_id same_generation = rw (same_id, same_generation) refl

module _ (max_in_flight : ℕ) (workers : List Worker) where
  -- The connection's requests that are not in the work queue.
  abbrev pub away : Connection → List Completion → ℕ → ℕ
  away c completions k =
      total (of_completion (request_at c.id c.generation k)) completions
      + total (of_worker (request_at c.id c.generation k)) workers

  pub Turn-IsSound :
      (n : ℕ) (c : Connection) (st : LoopState) (completions : BoundedQueue Completion)
      (loop : EventLoop)
      → IsSound max_in_flight workers n loop
      → find c.id loop.connections.connections ≡ some c
      → completions.is_closed ≡ false
      → ((f : ℕ → ℕ → ℕ → ℕ)
          → ((s : ℕ) → f c.id c.generation s ≡ 0)
          → total (of_completion f) completions.items
            ≡ total (of_completion f) loop.completion_queue.items)
      → Turn max_in_flight (away c completions.items) c loop.work_queue st
      → IsSound max_in_flight workers
          (n + 1)
          (put_with st.connection st.work_queue completions loop)
  Turn-IsSound n c st completions loop s h opened loads t =
      let q = (s.entries c.id c h).few in
      let r = t.requests in
      put_with-IsSound max_in_flight workers n c st.connection st.work_queue completions loop s h
        (record {
          id = t.id;
          generation = t.generation;
          opened = opened;
          loads = λ f zero_here. omega (arith, t.others f zero_here, loads f zero_here);
          accounts =
              Accounts-ext _ _ st.connection.sequencer
                (λ k.
                  let e = queued_same c st.connection k st.work_queue t.id t.generation in
                  omega arith)
                t.balanced.accounts;
          capped = t.balanced.capped;
          few = omega arith;
          released = t.balanced.released;
        })

  after_round-IsSound :
      (n : ℕ) (send : Bytes → Sent) (caller : Caller) (r : Round) (c : Connection)
      (loop : EventLoop)
      → IsSound max_in_flight workers n loop
      → find c.id loop.connections.connections ≡ some c
      → Turn max_in_flight
          (away c loop.completion_queue.items)
          c
          loop.work_queue
          (state_of max_in_flight (away c loop.completion_queue.items) r)
      → IsSound max_in_flight workers (n + 1) (after_round send caller r loop).1
  unfolding after_round
  after_round-IsSound n send caller (again st) c loop s h t =
      Turn-IsSound n c st loop.completion_queue loop s h s.opened (λ f zero_here. refl) t
  after_round-IsSound n send caller (stop false st) c loop s h t =
      close_connection-IsSound max_in_flight workers send (n + 1) _ _ _
        (Turn-IsSound n c st loop.completion_queue loop s h s.opened (λ f zero_here. refl) t)
  after_round-IsSound n send epoll_event (stop true st) c loop s h t =
      Turn-IsSound n c st loop.completion_queue loop s h s.opened (λ f zero_here. refl) t
  after_round-IsSound n send completion (stop true st) c loop s h t =
      begin_writable-IsSound max_in_flight workers (n + 1) _ _ _
        (Turn-IsSound n c st loop.completion_queue loop s h s.opened (λ f zero_here. refl) t)

  IsBalanced-entry :
      (n : ℕ) (c : Connection) (loop : EventLoop)
      → IsSound max_in_flight workers n loop
      → find c.id loop.connections.connections ≡ some c
      → IsBalanced max_in_flight (away c loop.completion_queue.items) c loop.work_queue
  IsBalanced-entry n c loop s h =
      let old = s.entries c.id c h in
      record {
        accounts = Accounts-ext _ _ c.sequencer (λ k. omega arith) old.accounts;
        capped = old.capped;
        released = old.released;
      }

  pub parse_step-IsSound :
      (n : ℕ) (config : EventLoopConfig) (os : Os) (caller : Caller) (id : ℕ) (loop : EventLoop)
      → config.max_in_flight_per_connection ≡ max_in_flight
      → n + 1 < word
      → IsSound max_in_flight workers n loop
      → IsSound max_in_flight workers (n + 1) (parse_step config os caller id loop).1
  unfolding parse_step
  parse_step-IsSound n config os caller id loop cap room s =
      elim (Option-cases (find_current id loop.connections)) [
        | inl e ↦ rw (e, parse_step) (IsSound-later max_in_flight workers n loop s)
        | inr (c, e) ↦
            let h = current max_in_flight workers n id c loop s e in
            let few = (s.entries c.id c h).few in
            rw (e, parse_step, cap)
              (after_round-IsSound n os.send caller _ c loop s h (
                Turn-round max_in_flight (away c loop.completion_queue.items)
                  (record { connection = c; work_queue = loop.work_queue }) (omega arith)
                  (IsBalanced-entry n c loop s h)))
      ]
