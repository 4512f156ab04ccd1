-- ===== src/Server/Sound/Accepts.antt =====
-- `handle_listener_readable` of src/net/event_loop.cpp leaves every request at one place.
use cpp_kv_store.Base.{
  ℕ, Bytes, ◌+◌, ◌<◌, ◌==◌, Bool, true, false, Option, none, some, ◌≡◌, refl, sym, subst, arith,
  inl, inr, Bool-cases, Option-cases, ◌⊎◌, [], List,
}
use cpp_kv_store.Base.Assoc.{nat_eq, find, erase, find-erase, find-insert}
use cpp_kv_store.Storage.Time.{word}
use cpp_kv_store.Net.BoundedBuffer.{new_buffer}
use cpp_kv_store.Net.ConnectionRegistry.{
  Connection, ConnectionRegistry, add, take_generation, emplace_at, new_connection, connection_of,
  find_connection,
}
use cpp_kv_store.Net.ConnectionRegistry
use cpp_kv_store.Net.ResponseSequencer.{new_sequencer}
use cpp_kv_store.Net.ResponseSequencer.Accounts.{Accounts-ext, new-Accounts}
use cpp_kv_store.Net.Listener.{AcceptRound, accepted, none_pending, retry, failure}
use cpp_kv_store.Net.EventLoop.Steps.{EventLoop, EventLoopConfig, after_add, accept_step}
use cpp_kv_store.Worker.Pool.{Worker}
use cpp_kv_store.Server.Sound.{IsSoundConnection, IsSound, Changes-IsSound, IsSound-later}
use cpp_kv_store.Server.Sound.Puts.{calls-IsSound}

-- A connection as its constructor makes it.
abbrev pub made : ℕ → ℕ → Bytes → ℕ → ℕ → Connection
made id generation peer max_input_bytes max_output_bytes = record {
  id = id;
  generation = generation;
  peer_address = peer;
  input = record { bytes = []; capacity = max_input_bytes };
  output = record { bytes = []; capacity = max_output_bytes };
  sequencer = new_sequencer;
}

pub new_connection-cases :
    (id generation : ℕ) (peer : Bytes) (m n : ℕ)
    → (new_connection id generation peer m n ≡ none)
      ⊎ (new_connection id generation peer m n ≡ some (made id generation peer m n))
unfolding new_connection connection_of new_buffer
new_connection-cases id generation peer m n = elim (Bool-cases (m == 0)) [
  | inl e ↦ inl (rw e refl)
  | inr e ↦ elim (Bool-cases (n == 0)) [
    | inl f ↦ inl (rw (e, f) refl)
    | inr f ↦ inr (rw (e, f) refl)
  ]
]

module _ (max_in_flight : ℕ) (workers : List Worker) where
  -- The entry at a descriptor is erased, and the next generation is taken.
  taken-IsSound :
      (n id : ℕ) (loop : EventLoop)
      → n + 2 < word
      → IsSound max_in_flight workers n loop
      → IsSound max_in_flight workers
          (n + 1)
          (record loop { connections = (take_generation id loop.connections).1 })
  unfolding take_generation
  taken-IsSound n id loop room s =
      let g = s.generations in
      Changes-IsSound max_in_flight workers n id loop _ s (record {
        others = λ j d e h. let a = find-erase id j loop.connections.connections in ground arith;
        older = omega arith;
        generations = omega arith;
        opened = s.opened;
        loads = λ f zero_here. refl;
        fresh = λ v k h. s.fresh id v k (omega arith);
        entry =
            λ c h. let a = find-erase id id loop.connections.connections in absurd (ground arith);
      })

  added-IsSound :
      (n id : ℕ) (peer : Bytes) (m k : ℕ) (loop : EventLoop)
      → n + 2 < word
      → IsSound max_in_flight workers n loop
      → IsSound max_in_flight workers (n + 1) (record loop {
        connections =
            emplace_at id
              (some (made id loop.connections.next_generation peer m k))
              (take_generation id loop.connections).1;
      })
  unfolding take_generation emplace_at find
  added-IsSound n id peer m k loop room s =
      let g = s.generations in
      let c = made id loop.connections.next_generation peer m k in
      let erased = erase id loop.connections.connections in
      Changes-IsSound max_in_flight workers n id loop _ s (record {
        others = λ j d e h.
            let a = find-erase id j loop.connections.connections in
            let b = find-insert id j c erased in ground arith;
        older = omega arith;
        generations = omega arith;
        opened = s.opened;
        loads = λ f zero_here. refl;
        fresh = λ v q h. s.fresh id v q (omega arith);
        entry = λ d h.
            let b = find-insert id id c erased in
            let same : c ≡ d = ground arith in
            subst (IsSoundConnection max_in_flight workers (n + 1) _ id) same (record {
              own = refl;
              older = omega arith;
              accounts =
                  Accounts-ext (λ q. 0) _ new_sequencer
                    (λ q. sym (s.fresh id loop.connections.next_generation q (omega arith)))
                    new-Accounts;
              capped = omega arith;
              few = omega arith;
              released = refl;
            });
      })

  registry_close-IsSound :
      (n id generation : ℕ) (loop : EventLoop)
      → IsSound max_in_flight workers n loop
      → IsSound max_in_flight workers n (record loop {
        connections = (ConnectionRegistry.close id generation loop.connections).1;
      })
  unfolding ConnectionRegistry.close
  registry_close-IsSound n id generation loop s =
      elim (Option-cases (find_connection id generation loop.connections)) [
        | inl e ↦ rw (e, ConnectionRegistry.close) s
        | inr (c, e) ↦
            rw (e, ConnectionRegistry.close)
              (record {
                entries = λ j d h.
                    let a = find-erase id j loop.connections.connections in
                    let old = s.entries j d (ground arith) in
                    record {
                      own = old.own;
                      older = old.older;
                      accounts = old.accounts;
                      capped = old.capped;
                      few = old.few;
                      released = old.released;
                    };
                fresh = s.fresh;
                generations = s.generations;
                opened = s.opened;
              })
      ]

  after_add-IsSound :
      (n : ℕ) (registered : Bool) (r : Option Connection × ConnectionRegistry) (loop : EventLoop)
      → IsSound max_in_flight workers n (record loop { connections = r.1 })
      → IsSound max_in_flight workers n (after_add registered r loop).1
  unfolding after_add
  after_add-IsSound n registered (none, registry) loop s = s
  after_add-IsSound n true (some c, registry) loop s =
      calls-IsSound max_in_flight workers n _ _ (record loop { connections = registry }) s
  after_add-IsSound n false (some c, registry) loop s =
      calls-IsSound max_in_flight workers n _ _ _
        (registry_close-IsSound n c.id c.generation (record loop { connections = registry }) s)

  emplaced-IsSound :
      (n id : ℕ) (peer : Bytes) (m k : ℕ) (o : Option Connection) (loop : EventLoop)
      → n + 2 < word
      → (o ≡ none) ⊎ (o ≡ some (made id loop.connections.next_generation peer m k))
      → IsSound max_in_flight workers n loop
      → IsSound max_in_flight workers
          (n + 1)
          (record loop { connections = emplace_at id o (take_generation id loop.connections).1 })
  unfolding emplace_at
  emplaced-IsSound n id peer m k o loop room (inl e) s =
      subst
        (λ x.
          IsSound max_in_flight workers (n + 1)
            (record loop { connections = emplace_at id x (take_generation id loop.connections).1 }))
        (sym e) (taken-IsSound n id loop room s)
  emplaced-IsSound n id peer m k o loop room (inr e) s =
      subst
        (λ x.
          IsSound max_in_flight workers (n + 1)
            (record loop { connections = emplace_at id x (take_generation id loop.connections).1 }))
        (sym e) (added-IsSound n id peer m k loop room s)

  pub accept_step-IsSound :
      (n : ℕ) (config : EventLoopConfig) (answer : AcceptRound) (registered : Bool)
      (loop : EventLoop)
      → n + 2 < word
      → IsSound max_in_flight workers n loop
      → IsSound max_in_flight workers (n + 1) (accept_step config answer registered loop).1
  unfolding accept_step add take_generation
  accept_step-IsSound n config none_pending registered loop room s =
      IsSound-later max_in_flight workers n loop s
  accept_step-IsSound n config retry registered loop room s =
      IsSound-later max_in_flight workers n loop s
  accept_step-IsSound n config failure registered loop room s =
      IsSound-later max_in_flight workers n loop s
  accept_step-IsSound n config (accepted id peer) registered loop room s =
      after_add-IsSound (n + 1) registered _ loop (
        emplaced-IsSound n id peer config.max_input_bytes config.max_output_bytes _ loop room
          (new_connection-cases id loop.connections.next_generation peer config.max_input_bytes
            config.max_output_bytes)
          s)
