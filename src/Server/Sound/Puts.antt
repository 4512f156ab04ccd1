-- ===== src/Server/Sound/Puts.antt =====
-- What a change of one connection by src/net/event_loop.cpp leaves of the requests.
use cpp_kv_store.Base.{
  ℕ, ◌+◌, ◌≤◌, false, none, some, List, ◌≡◌, refl, sym, ◌∙◌, subst, arith, inl, inr, Option-cases,
}
use cpp_kv_store.Base.Assoc.{nat_eq, find, find-insert}
use cpp_kv_store.Net.ConnectionRegistry.{Connection, find_current}
use cpp_kv_store.Net.ResponseSequencer.Accounts.{Accounts}
use cpp_kv_store.Net.EventLoop.Balance.{request_at, IsCapped}
use cpp_kv_store.Net.EventLoop.Steps.{EventLoop, EpollCall, Caller, put, begin_writable}
use cpp_kv_store.Worker.BoundedQueue.{BoundedQueue}
use cpp_kv_store.Worker.Items.{WorkItem, Completion}
use cpp_kv_store.Worker.Pool.{Worker}
use cpp_kv_store.Server.Sound.{load_at, IsSoundConnection, IsSound, Changes-IsSound}

-- A connection is replaced, and the queues with it.
abbrev pub put_with :
    Connection → BoundedQueue WorkItem → BoundedQueue Completion → EventLoop → EventLoop
put_with c work completions loop = record (put c loop) {
  work_queue = work;
  completion_queue = completions;
}

module _ (max_in_flight : ℕ) (workers : List Worker) where
  -- What replaces a connection.
  pub record Replaces (n : ℕ) (c to : Connection) (loop after : EventLoop) : Type 0 where
    pub id : to.id ≡ c.id
    pub generation : to.generation ≡ c.generation
    pub opened : after.completion_queue.is_closed ≡ false
    pub loads :
        (f : ℕ → ℕ → ℕ → ℕ)
        → ((s : ℕ) → f c.id c.generation s ≡ 0)
        → load_at f workers after ≡ load_at f workers loop
    pub accounts :
        Accounts (λ k. load_at (request_at c.id c.generation k) workers after) to.sequencer
    pub capped : IsCapped max_in_flight to.sequencer
    pub few : to.sequencer.next_request_sequence ≤ n + 1
    pub released : find to.sequencer.next_expected to.sequencer.pending ≡ none

  pub put_with-IsSound :
      (n : ℕ) (c to : Connection) (work : BoundedQueue WorkItem)
      (completions : BoundedQueue Completion) (loop : EventLoop)
      → IsSound max_in_flight workers n loop
      → find c.id loop.connections.connections ≡ some c
      → Replaces n c to loop (put_with to work completions loop)
      → IsSound max_in_flight workers (n + 1) (put_with to work completions loop)
  put_with-IsSound n c to work completions loop s h r =
      let after = put_with to work completions loop in
      let at = λ (j : ℕ). find-insert to.id j to loop.connections.connections in
      let same = r.id in
      let old = s.entries c.id c h in
      let o = old.older in
      let v = r.generation in
      let g = s.generations in
      Changes-IsSound max_in_flight workers n c.id loop after s (record {
        others = λ j d e k. let a = at j in ground arith;
        older = omega arith;
        generations = omega arith;
        opened = r.opened;
        loads = λ f zero_here. r.loads f (zero_here c.generation);
        fresh =
            λ q k older. r.loads (request_at c.id q k) (λ t. ground arith) ∙ s.fresh c.id q k older;
        entry = λ d k.
            let a = at c.id in
            let d_to : to ≡ d = ground arith in
            subst (IsSoundConnection max_in_flight workers (n + 1) after c.id) d_to (record {
              own = r.id;
              older = omega arith;
              accounts =
                  subst
                    (λ q. Accounts (λ k. load_at (request_at c.id q k) workers after) to.sequencer)
                    (sym r.generation) r.accounts;
              capped = r.capped;
              few = r.few;
              released = r.released;
            });
      })

  -- Only the buffers of a connection change.
  pub buffers-IsSound :
      (n : ℕ) (c to : Connection) (loop : EventLoop)
      → IsSound max_in_flight workers n loop
      → find c.id loop.connections.connections ≡ some c
      → to.id ≡ c.id
      → to.generation ≡ c.generation
      → to.sequencer ≡ c.sequencer
      → IsSound max_in_flight workers (n + 1) (put to loop)
  buffers-IsSound n c to loop s h same_id same_generation same_sequencer =
      let old = s.entries c.id c h in
      let q = old.few in
      put_with-IsSound n c to loop.work_queue loop.completion_queue loop s h (record {
        id = same_id;
        generation = same_generation;
        opened = s.opened;
        loads = λ f zero_here. refl;
        accounts = subst (Accounts _) (sym same_sequencer) old.accounts;
        capped = subst (IsCapped max_in_flight) (sym same_sequencer) old.capped;
        few = subst (λ x. x.next_request_sequence ≤ n + 1) (sym same_sequencer) (omega arith);
        released =
            subst (λ x. find x.next_expected x.pending ≡ none) (sym same_sequencer) old.released;
      })

  -- The calls of the operating system are not looked at.
  pub calls-IsSound :
      (n : ℕ) (calls : List EpollCall) (wakeups : ℕ) (loop : EventLoop)
      → IsSound max_in_flight workers n loop
      → IsSound max_in_flight workers n (record loop { epoll_calls = calls; wakeups = wakeups })
  calls-IsSound n calls wakeups loop s = record {
    entries = λ j c h.
        let old = s.entries j c h in
        record {
          own = old.own;
          older = old.older;
          accounts = old.accounts;
          capped = old.capped;
          few = old.few;
          released = old.released;
        };
    fresh = s.fresh;
    generations = s.generations;
    opened = s.opened;
  }

  pub begin_writable-IsSound :
      (n : ℕ) (caller : Caller) (id : ℕ) (loop : EventLoop)
      → IsSound max_in_flight workers n loop
      → IsSound max_in_flight workers n (begin_writable caller id loop).1
  unfolding begin_writable
  begin_writable-IsSound n caller id loop s =
      elim (Option-cases (find_current id loop.connections)) [
        | inl e ↦ rw (e, begin_writable) s
        | inr (c, e) ↦ rw (e, begin_writable) s
      ]

  -- A step that looks a connection up, and does nothing without one.
  pub current :
      (n id : ℕ) (c : Connection) (loop : EventLoop)
      → IsSound max_in_flight workers n loop
      → find_current id loop.connections ≡ some c
      → find c.id loop.connections.connections ≡ some c
  unfolding find_current
  current n id c loop s h =
      subst (λ i. find i loop.connections.connections ≡ some c) (sym (s.entries id c h).own) h
