-- ===== src/Server/Attended/Accepts.antt =====
-- `handle_listener_readable` of src/net/event_loop.cpp leaves every connection settled and shown.
use cpp_kv_store.Base.{
  ℕ, Bytes, Bool, Option, none, some, ◌≡◌, refl, sym, subst, arith, inl, inr, ◌⊎◌, Bool-cases,
  Option-cases, [], ◌∷◌,
}
use cpp_kv_store.Base.Assoc.{nat_eq, find, erase, find-insert, find-erase}
use cpp_kv_store.Protocol.Command.{need_more_data}
use cpp_kv_store.Protocol.Frame.{read_multibulk_frame}
use cpp_kv_store.Protocol.Parser.{parse_command, result_of}
use cpp_kv_store.Net.ConnectionRegistry.{
  Connection, ConnectionRegistry, find_connection, add, take_generation, emplace_at, new_connection,
}
use cpp_kv_store.Net.ConnectionRegistry
use cpp_kv_store.Net.Listener.{AcceptRound, accepted, none_pending, retry, failure}
use cpp_kv_store.Net.EventLoop.Steps.{
  EventLoop, EventLoopConfig, epoll_ctl_add, accepting, returned, waiting, after_add, accept_step,
}
use cpp_kv_store.Server.Sound.Accepts.{made, new_connection-cases}
use cpp_kv_store.Server.Attended.{IsAttendedConnection, IsAttended, IsAttended-any, IsAttended-of}
use cpp_kv_store.Server.Attended.Handlers.{Ends}

parse_command-empty : parse_command [] ≡ need_more_data
unfolding parse_command result_of read_multibulk_frame
parse_command-empty = refl

find-close :
    (id generation : ℕ) (registry : ConnectionRegistry) (j : ℕ) (d : Connection)
    → find j (ConnectionRegistry.close id generation registry).1.connections ≡ some d
    → find j registry.connections ≡ some d
unfolding ConnectionRegistry.close
find-close id generation registry j d h =
    elim (Option-cases (find_connection id generation registry)) [
      | inl e ↦ (rw (e, ConnectionRegistry.close) at h)
      | inr (c, e) ↦
          let k = (rw (e, ConnectionRegistry.close) at h) in
          let a = find-erase id j registry.connections in ground arith
    ]

module _ (max_in_flight : ℕ) where
  added-IsAttended :
      (id : ℕ) (peer : Bytes) (m n : ℕ) (registry : ConnectionRegistry) (loop : EventLoop)
      → ((j : ℕ) (d : Connection)
          → find j registry.connections ≡ some d
          → find j
              (emplace_at id
                (some (made id loop.connections.next_generation peer m n))
                (take_generation id loop.connections).1).connections
            ≡ some d)
      → IsAttended max_in_flight accepting loop
      → IsAttended max_in_flight accepting (record loop {
        connections = registry;
        epoll_calls = epoll_ctl_add id ∷ loop.epoll_calls;
      })
  unfolding emplace_at take_generation
  added-IsAttended id peer m n registry loop sub a =
      let c = made id loop.connections.next_generation peer m n in
      let to : EventLoop = record loop {
        connections = registry;
        epoll_calls = epoll_ctl_add id ∷ loop.epoll_calls;
      } in
      IsAttended-of max_in_flight accepting id to
        (λ j d e h.
          let i = find-insert id j c (erase id loop.connections.connections) in
          let r = find-erase id j loop.connections.connections in
          let s = sub j d h in
          let k = a j d (ground arith) in
          let own = k.own in let shown = k.shown refl in (own, k.settled refl, ground arith))
        (λ d h.
          let i = find-insert id id c (erase id loop.connections.connections) in
          let s = sub id d h in
          let same : c ≡ d = ground arith in
          subst (IsAttendedConnection max_in_flight accepting to.epoll_calls id) same (record {
            own = refl;
            settled = λ p. inr parse_command-empty;
            shown = λ p. ground arith;
          }))

  emplaced-Ends :
      (id : ℕ) (peer : Bytes) (m n : ℕ) (registered : Bool) (o : Option Connection)
      (loop : EventLoop)
      → (o ≡ none) ⊎ (o ≡ some (made id loop.connections.next_generation peer m n))
      → IsAttended max_in_flight accepting loop
      → Ends max_in_flight
          (after_add registered (o, emplace_at id o (take_generation id loop.connections).1) loop)
  unfolding after_add emplace_at take_generation
  emplaced-Ends id peer m n registered o loop cases a =
      let g = loop.connections.next_generation in
      let emplaced =
        λ (x : Option Connection). emplace_at id x (take_generation id loop.connections).1 in
      let with_made = emplaced (some (made id g peer m n)) in
      let moved =
        λ (x : Option Connection). Ends max_in_flight (after_add registered (x, emplaced x) loop) in
      elim cases [
        | inl e ↦ subst moved (sym e) (λ j d h.
            let r = find-erase id j loop.connections.connections in
            IsAttended-any max_in_flight accepting returned loop (λ i. refl) a j d (ground arith))
        | inr e ↦ subst moved (sym e) (elim (Bool-cases registered) [
          | inl r ↦ rw r (added-IsAttended id peer m n with_made loop (λ j d h. h) a)
          | inr r ↦ rw r (
              added-IsAttended id peer m n (ConnectionRegistry.close id g with_made).1 loop
                (λ j d h. find-close id g with_made j d h) a)
        ])
      ]

  pub accept_step-Ends :
      (config : EventLoopConfig) (answer : AcceptRound) (registered : Bool) (loop : EventLoop)
      → IsAttended max_in_flight accepting loop
      → Ends max_in_flight (accept_step config answer registered loop)
  unfolding accept_step add take_generation
  accept_step-Ends config none_pending registered loop a =
      IsAttended-any max_in_flight accepting waiting loop (λ j. refl) a
  accept_step-Ends config retry registered loop a = a
  accept_step-Ends config failure registered loop a =
      IsAttended-any max_in_flight accepting returned loop (λ j. refl) a
  accept_step-Ends config (accepted id peer) registered loop a =
      emplaced-Ends id peer config.max_input_bytes config.max_output_bytes registered _ loop
        (new_connection-cases id loop.connections.next_generation peer config.max_input_bytes
          config.max_output_bytes)
        a
