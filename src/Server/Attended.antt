-- ===== src/Server/Attended.antt =====
-- What src/net/event_loop.cpp waits for: that no buffered request is forgotten, and that EPOLLOUT is
-- asked for where a response is buffered.
pub mod Handlers
pub mod Writes
pub mod Steps
pub mod Accepts
pub mod Runs
use cpp_kv_store.Base.{
  ℕ, Bytes, ◌≤◌, ◌==◌, Bool, false, not, some, if◌then◌else◌, ◌≡◌, refl, sym, subst, arith, inl,
  inr, ◌⊎◌, Bool-cases, List, [], ◌∷◌, length,
}
use cpp_kv_store.Base.Assoc.{nat_eq, find, find-insert}
use cpp_kv_store.Protocol.Command.{need_more_data}
use cpp_kv_store.Protocol.Parser.{parse_command}
use cpp_kv_store.Net.ConnectionRegistry.{Connection, find_connection}
use cpp_kv_store.Net.ResponseSequencer.{in_flight_count}
use cpp_kv_store.Net.EventLoop.Steps.{
  EpollCall, epoll_ctl_add, epoll_ctl_mod, epoll_ctl_del, EventLoop, Place, waiting, accepting,
  draining, returned, reading, parsing, writing, put, close_connection,
}
use cpp_kv_store.Net.EventLoop.Closing.{close_connection-Closes}
use cpp_kv_store.Net.Io.{Sent}

-- Whether the last call for a descriptor asks for EPOLLOUT.
abbrev pub asks_write : ℕ → List EpollCall → Bool
asks_write id [] = false
asks_write id (epoll_ctl_add i ∷ calls) =
    let rest = asks_write id calls in if i == id then false else rest
asks_write id (epoll_ctl_mod i out ∷ calls) =
    let rest = asks_write id calls in if i == id then out else rest
asks_write id (epoll_ctl_del i ∷ calls) =
    let rest = asks_write id calls in if i == id then false else rest

abbrev pub works_on : Place → ℕ → Bool
works_on (reading i) id = i == id
works_on (parsing _ i) id = i == id
works_on (writing _ i) id = i == id
works_on _ id = false

abbrev pub parses : Place → ℕ → Bool
parses (parsing _ i) id = i == id
parses _ id = false

-- Nothing can be parsed from the input for now.
abbrev pub IsSettled : ℕ → Connection → Type 0
IsSettled max_in_flight c =
    (max_in_flight ≤ in_flight_count c.sequencer) ⊎ (parse_command c.input.bytes ≡ need_more_data)

-- EPOLLOUT is asked for exactly if there is output.
abbrev pub IsShown : List EpollCall → Connection → Type 0
IsShown calls c = asks_write c.id calls ≡ not (length c.output.bytes == 0)

module _ (max_in_flight : ℕ) where
  -- Each connection is settled unless it is being parsed, and shown unless it is being worked on.
  pub record IsAttendedConnection (place : Place) (calls : List EpollCall) (id : ℕ) (c : Connection)
      : Type 0 where
    pub own : c.id ≡ id
    pub settled : parses place id ≡ false → IsSettled max_in_flight c
    pub shown : works_on place id ≡ false → IsShown calls c

  abbrev pub IsAttended : Place → EventLoop → Type 0
  IsAttended place loop =
      (id : ℕ) (c : Connection)
      → find id loop.connections.connections ≡ some c
      → IsAttendedConnection place loop.epoll_calls id c

  -- All connections but the one at `id` are settled and shown.
  abbrev pub Others : ℕ → EventLoop → Type 0
  Others id loop =
      (j : ℕ) (d : Connection)
      → (id == j) ≡ false
      → find j loop.connections.connections ≡ some d
      → (d.id ≡ j) × IsSettled max_in_flight d × IsShown loop.epoll_calls d

  free_of : (place : Place) (j : ℕ) → works_on place j ≡ false → parses place j ≡ false
  free_of (reading i) j h = refl
  free_of (parsing caller i) j h = h
  free_of (writing caller i) j h = refl
  free_of waiting j h = refl
  free_of accepting j h = refl
  free_of draining j h = refl
  free_of returned j h = refl

  pub Others-of :
      (place : Place) (id : ℕ) (loop : EventLoop)
      → ((j : ℕ) → (id == j) ≡ false → works_on place j ≡ false)
      → IsAttended place loop
      → Others id loop
  Others-of place id loop only a j d e h =
      let k = a j d h in (k.own, k.settled (free_of place j (only j e)), k.shown (only j e))

  -- A place that works on no connection can become any.
  pub IsAttended-any :
      (place to : Place) (loop : EventLoop)
      → ((j : ℕ) → works_on place j ≡ false)
      → IsAttended place loop
      → IsAttended to loop
  IsAttended-any place to loop none_there a id c h =
      let k = a id c h in
      record {
        own = k.own;
        settled = λ p. k.settled (free_of place id (none_there id));
        shown = λ p. k.shown (none_there id);
      }

  pub Others-put : (c : Connection) (loop : EventLoop) → Others c.id loop → Others c.id (put c loop)
  Others-put c loop o j d e h =
      let a = find-insert c.id j c loop.connections.connections in o j d e (ground arith)

  pub Others-mod :
      (id : ℕ) (out : Bool) (loop : EventLoop)
      → Others id loop
      → Others id (record loop { epoll_calls = epoll_ctl_mod id out ∷ loop.epoll_calls })
  Others-mod id out loop o j d e h = let k = o j d e h in let l = k.0 in (k.0, k.1, ground arith)

  -- What is at `id` completes the others.
  pub IsAttended-of :
      (place : Place) (id : ℕ) (loop : EventLoop)
      → Others id loop
      → ((c : Connection)
          → find id loop.connections.connections ≡ some c
          → IsAttendedConnection place loop.epoll_calls id c)
      → IsAttended place loop
  IsAttended-of place id loop o entry j d h = elim (Bool-cases (id == j)) [
    | inl e ↦
        let same : id ≡ j = ground arith in
        subst (λ i. IsAttendedConnection place loop.epoll_calls i d) same
          (entry d (subst (λ i. find i loop.connections.connections ≡ some d) (sym same) h))
    | inr e ↦ let k = o j d e h in record { own = k.0; settled = λ p. k.1; shown = λ p. k.2 }
  ]

  pub close_connection-IsAttended :
      (place : Place) (send : Bytes → Sent) (id generation : ℕ) (c : Connection) (loop : EventLoop)
      → Others id loop
      → find_connection id generation loop.connections ≡ some c
      → ((d : Connection) → find id loop.connections.connections ≡ some d → d.id ≡ id)
      → IsAttended place (close_connection send id generation loop)
  close_connection-IsAttended place send id generation c loop o found own =
      let k = close_connection-Closes send id generation loop own in
      let to = close_connection send id generation loop in
      IsAttended-of place id to
        (λ j d e h.
          let old = o j d e (k.lookup j d h) in
          let own = old.0 in
          (
            old.0,
            old.1,
            elim k.epoll_calls [
              | inl same ↦ rw same old.2
              | inr (same, _) ↦ rw same (ground arith)
            ],
          ))
        (λ d h. let gone = k.gone c found in absurd (ground arith))
