-- ===== src/Net/EventLoop/Closing.antt =====
-- What `close_connection` of src/net/event_loop.cpp leaves.
use cpp_kv_store.Base.{
  ℕ, Bytes, none, some, ◌∷◌, ◌==◌, if◌then◌else◌, length, ◌≡◌, refl, ◌∙◌, subst, arith, ◌⊎◌, inl,
  inr, Bool-cases, Option-cases,
}
use cpp_kv_store.Base.Assoc.{nat_eq, find, erase, find-insert, find-erase}
use cpp_kv_store.Net.ConnectionRegistry.{
  Connection, ConnectionRegistry, find_connection, of_generation,
}
use cpp_kv_store.Net.ConnectionRegistry
use cpp_kv_store.Net.Io.{Sent}
use cpp_kv_store.Net.EventLoop.Steps.{EventLoop, epoll_ctl_del, put, flush, close_connection}

pub record Closes (id generation : ℕ) (loop to : EventLoop) : Type 0 where
  pub lookup :
      (j : ℕ) (d : Connection)
      → find j to.connections.connections ≡ some d
      → find j loop.connections.connections ≡ some d
  pub next_generation : to.connections.next_generation ≡ loop.connections.next_generation
  pub work_queue : to.work_queue ≡ loop.work_queue
  pub completion_queue : to.completion_queue ≡ loop.completion_queue
  pub epoll_calls :
      (to.epoll_calls ≡ loop.epoll_calls)
      ⊎ ((to.epoll_calls ≡ epoll_ctl_del id ∷ loop.epoll_calls)
          × (find id to.connections.connections ≡ none))
  pub gone :
      (c : Connection)
      → find_connection id generation loop.connections ≡ some c
      → find id to.connections.connections ≡ none

flush-same :
    (send : Bytes → Sent) (c : Connection)
    → ((flush send c).id ≡ c.id) × ((flush send c).generation ≡ c.generation)
unfolding flush
flush-same send c = elim (Bool-cases (length c.output.bytes == 0)) [
  | inl e ↦ rw e (refl, refl)
  | inr e ↦ rw e (refl, refl)
]

-- A found connection has the generation asked for, and stands at the descriptor.
pub find_connection-some :
    (id generation : ℕ) (registry : ConnectionRegistry) (c : Connection)
    → find_connection id generation registry ≡ some c
    → (find id registry.connections ≡ some c) × (c.generation ≡ generation)
unfolding find_connection of_generation
find_connection-some id generation registry c h =
    elim (Option-cases (find id registry.connections)) [
      | inl e ↦ let k = (rw e at h) in cc
      | inr (d, e) ↦ ground arith
    ]

pub find_connection-of :
    (id : ℕ) (registry : ConnectionRegistry) (c : Connection)
    → find id registry.connections ≡ some c
    → find_connection id c.generation registry ≡ some c
unfolding find_connection of_generation
find_connection-of id registry c h = rw h (ground arith)

pub close_connection-Closes :
    (send : Bytes → Sent) (id generation : ℕ) (loop : EventLoop)
    → ((c : Connection) → find id loop.connections.connections ≡ some c → c.id ≡ id)
    → Closes id generation loop (close_connection send id generation loop)
unfolding close_connection ConnectionRegistry.close
close_connection-Closes send id generation loop own =
    elim (Option-cases (find_connection id generation loop.connections)) [
      | inl e ↦
          rw (e, close_connection)
            (record {
              lookup = λ j d h. h;
              next_generation = refl;
              work_queue = refl;
              completion_queue = refl;
              epoll_calls = inl refl;
              gone = λ c h. let k = (rw e at h) in cc;
            })
      | inr (c, e) ↦
          let found = find_connection-some id generation loop.connections c e in
          let same = flush-same send c in
          let here = same.0 ∙ own c found.0 in
          let kept = flush send c in
          let registry = (put kept loop).connections in
          let at_id : find id registry.connections ≡ some kept =
            find-insert kept.id id kept loop.connections.connections ∙ (ground arith) in
          let still : find_connection id generation registry ≡ some kept =
            subst (λ g. find_connection id g registry ≡ some kept) (same.1 ∙ found.1)
              (find_connection-of id registry kept at_id) in
          let left : (j : ℕ)
              → find j (erase id registry.connections)
                ≡ (if id == j then none else find j loop.connections.connections) =
            λ j.
              let a = find-erase id j registry.connections in
              let b = find-insert kept.id j kept loop.connections.connections in
              grind (arith, a, b, here) in
          rw (e, close_connection, still, ConnectionRegistry.close)
            (record {
              lookup = λ j d h. let l = left j in ground arith;
              next_generation = refl;
              work_queue = refl;
              completion_queue = refl;
              epoll_calls = inr (refl, left id ∙ (ground arith));
              gone = λ c h. left id ∙ (ground arith);
            })
    ]
