-- ===== src/Server/Sound/Drains.antt =====
-- `drain_completions` of src/net/event_loop.cpp leaves every request at one place.
use cpp_kv_store.Base.{
  ℕ, Bytes, ◌+◌, ◌==◌, Bool, true, false, none, some, List, ◌≡◌, refl, sym, ap, ◌∙◌, subst, arith,
  inl, inr, Bool-cases, Option-cases, [], ◌∷◌,
}
use cpp_kv_store.Base.Totals.{total}
use cpp_kv_store.Base.Assoc.{nat_eq, find}
use cpp_kv_store.Net.ConnectionRegistry.{Connection, find_connection, find_current}
use cpp_kv_store.Net.ResponseSequencer.Accounts.{Accounts-ext}
use cpp_kv_store.Net.EventLoop.{respond}
use cpp_kv_store.Net.EventLoop.Balance.{request_at}
use cpp_kv_store.Net.EventLoop.Balance.Turns.{Turn-respond}
use cpp_kv_store.Net.EventLoop.Closing.{find_connection-some, find_connection-of}
use cpp_kv_store.Net.EventLoop.Steps.{
  EventLoop, put, after_record, on_completion, after_try_pop, drain_step, Os,
}
use cpp_kv_store.Net.Io.{Sent}
use cpp_kv_store.Worker.BoundedQueue.{BoundedQueue, try_pop, try_pop_items}
use cpp_kv_store.Worker.Items.{Completion}
use cpp_kv_store.Worker.Pool.{Worker}
use cpp_kv_store.Worker.Pool.Tokens.{of_completion}
use cpp_kv_store.Server.Sound.{IsSound, Changes-IsSound, IsSound-later, close_connection-IsSound}
use cpp_kv_store.Server.Sound.Puts.{current}
use cpp_kv_store.Server.Sound.Moves.{away, Turn-IsSound}

module _ (max_in_flight : ℕ) (workers : List Worker) where
  -- A completion of a connection that is gone is dropped.
  stale-IsSound :
      (n : ℕ) (done : Completion) (completions : BoundedQueue Completion) (loop : EventLoop)
      → IsSound max_in_flight workers n loop
      → loop.completion_queue.items ≡ done ∷ completions.items
      → completions.is_closed ≡ false
      → find_connection done.connection_id done.connection_generation loop.connections ≡ none
      → IsSound max_in_flight workers (n + 1) (record loop { completion_queue = completions })
  stale-IsSound n done completions loop s e opened missing =
      let taken = λ (f : ℕ → ℕ → ℕ → ℕ). ap (total (of_completion f)) e in
      let g = s.generations in
      Changes-IsSound max_in_flight workers n done.connection_id loop _ s (record {
        others = λ j d o h. h;
        older = omega arith;
        generations = omega arith;
        opened = opened;
        loads = λ f zero_here.
            omega (arith, taken f, zero_here done.connection_generation done.sequence);
        fresh = λ v k o.
            omega
              (arith, taken (request_at done.connection_id v k), s.fresh done.connection_id v k o);
        entry = λ c h.
            let old = s.entries done.connection_id c h in
            let other : (done.connection_generation == c.generation) ≡ false =
              elim (Bool-cases (done.connection_generation == c.generation)) [
                | inl same ↦
                    let found = find_connection-of done.connection_id loop.connections c h in
                    let generation : c.generation ≡ done.connection_generation = ground arith in
                    let k =
                      subst (λ v. find_connection done.connection_id v loop.connections ≡ some c)
                        generation found in
                    cc
                | inr differs ↦ differs
              ] in
            let q = old.few in
            record {
              own = old.own;
              older = old.older;
              accounts =
                  Accounts-ext _ _ c.sequencer
                    (λ k.
                      let t = taken (request_at done.connection_id c.generation k) in ground arith)
                    old.accounts;
              capped = old.capped;
              few = omega arith;
              released = old.released;
            };
      })

  after_record-IsSound :
      (n : ℕ) (send : Bytes → Sent) (r : Bool × Connection) (loop : EventLoop)
      → IsSound max_in_flight workers n (put r.1 loop)
      → IsSound max_in_flight workers n (after_record send r loop).1
  unfolding after_record
  after_record-IsSound n send (true, c) loop s = s
  after_record-IsSound n send (false, c) loop s =
      close_connection-IsSound max_in_flight workers send n c.id c.generation _ s

  recorded-IsSound :
      (n : ℕ) (done : Completion) (completions : BoundedQueue Completion) (c : Connection)
      (loop : EventLoop)
      → IsSound max_in_flight workers n loop
      → loop.completion_queue.items ≡ done ∷ completions.items
      → completions.is_closed ≡ false
      → done.connection_id ≡ c.id
      → done.connection_generation ≡ c.generation
      → find c.id loop.connections.connections ≡ some c
      → IsSound max_in_flight workers (n + 1) (
          put
            (respond done.sequence done.response c).1
            (record loop { completion_queue = completions }))
  recorded-IsSound n done completions c loop s e opened mine mine' h =
      let taken = λ (f : ℕ → ℕ → ℕ → ℕ). ap (total (of_completion f)) e in
      let old = s.entries c.id c h in
      Turn-IsSound max_in_flight workers n c
        (record {
          connection = (respond done.sequence done.response c).1;
          work_queue = loop.work_queue;
        })
        completions loop s h opened
        (λ f zero_here.
          let zero_done : f done.connection_id done.connection_generation done.sequence ≡ 0 =
            ap (λ i. f i done.connection_generation done.sequence) mine
            ∙ ap (λ v. f c.id v done.sequence) mine'
            ∙ zero_here done.sequence in
          omega (arith, taken f))
        (Turn-respond max_in_flight (away max_in_flight workers c completions.items) done.sequence
          done.response c c loop.work_queue
          (record {
            accounts =
                Accounts-ext _ _ c.sequencer
                  (λ k. let t = taken (request_at c.id c.generation k) in ground arith)
                  old.accounts;
            capped = old.capped;
            released = old.released;
          })
          refl refl (omega arith))

  drain-IsSound :
      (n : ℕ) (send : Bytes → Sent) (items : List Completion) (loop : EventLoop)
      → IsSound max_in_flight workers n loop
      → loop.completion_queue.items ≡ items
      → IsSound max_in_flight workers
          (n + 1)
          (after_try_pop send
            (try_pop_items items loop.completion_queue).0
            (record loop { completion_queue = (try_pop_items items loop.completion_queue).1 })).1
  unfolding after_try_pop try_pop_items on_completion find_current
  drain-IsSound n send [] loop s e = IsSound-later max_in_flight workers n loop s
  drain-IsSound n send (done ∷ items) loop s e =
      elim (Option-cases
        (find_connection done.connection_id done.connection_generation loop.connections)) [
          | inl missing ↦
              rw (missing, on_completion) (stale-IsSound n done _ loop s e s.opened missing)
          | inr (c, found) ↦
              let f = find_connection-some _ _ loop.connections c found in
              let own = (s.entries done.connection_id c f.0).own in
              rw (found, on_completion)
                (after_record-IsSound (n + 1) send _ _ (
                  recorded-IsSound n done _ c loop s e s.opened (sym own) (sym f.1)
                    (current max_in_flight workers n done.connection_id c loop s f.0)))
        ]

  pub drain_step-IsSound :
      (n : ℕ) (os : Os) (loop : EventLoop)
      → IsSound max_in_flight workers n loop
      → IsSound max_in_flight workers (n + 1) (drain_step os loop).1
  unfolding drain_step try_pop
  drain_step-IsSound n os loop s = drain-IsSound n os.send loop.completion_queue.items loop s refl
