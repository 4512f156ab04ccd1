-- ===== src/Server/Attended/Handlers.antt =====
-- The handlers of src/net/event_loop.cpp leave every connection settled and shown.
use cpp_kv_store.Base.{
  ℕ, Bytes, ◌==◌, true, false, none, some, ◌≡◌, refl, sym, subst, arith, inl, inr, Bool-cases,
  Option-cases, [], ◌∷◌,
}
use cpp_kv_store.Base.Assoc.{nat_eq, find, find-insert}
use cpp_kv_store.Net.BoundedBuffer.{BoundedBuffer, remaining}
use cpp_kv_store.Net.ConnectionRegistry.{Connection, find_current}
use cpp_kv_store.Net.Io.{
  Sent, Received, bytes, eagain, eintr, epipe, econnreset, other, ReadStatus, no_read, after_recv,
  attempt, read_into,
}
use cpp_kv_store.Net.EventLoop.Closing.{find_connection-of}
use cpp_kv_store.Net.EventLoop.Steps.{
  EventLoop, Place, Caller, epoll_event, waiting, reading, parsing, writing, put, Os,
  close_connection, begin_writable, after_read, read_step,
}
use cpp_kv_store.Server.Attended.{
  works_on, IsSettled, IsAttendedConnection, IsAttended, Others, Others-of, Others-put,
  IsAttended-of, close_connection-IsAttended,
}

pub find-put :
    (c : Connection) (loop : EventLoop) → find c.id (put c loop).connections.connections ≡ some c
find-put c loop = let a = find-insert c.id c.id c loop.connections.connections in ground arith

pub begin_writable-put :
    (caller : Caller) (c : Connection) (loop : EventLoop)
    → begin_writable caller c.id (put c loop) ≡ (writing caller c.id, put c loop)
unfolding begin_writable find_current
begin_writable-put caller c loop =
    let e : find_current c.id (put c loop).connections ≡ some c = find-put c loop in
    rw (e, begin_writable) refl

-- A read that would block reads nothing.
after_recv-would_block :
    (r : Received) (b : BoundedBuffer)
    → (after_recv r b).0.status ≡ ReadStatus.would_block
    → (after_recv r b).1 ≡ b
unfolding after_recv no_read
after_recv-would_block (bytes []) b h = refl
after_recv-would_block (bytes (c ∷ chunk)) b h = cc
after_recv-would_block (Received.failed eagain) b h = refl
after_recv-would_block (Received.failed eintr) b h = refl
after_recv-would_block (Received.failed epipe) b h = refl
after_recv-would_block (Received.failed econnreset) b h = refl
after_recv-would_block (Received.failed (other n)) b h = refl

read_into-would_block :
    (recv : ℕ → Received) (b : BoundedBuffer)
    → (read_into recv b).0.status ≡ ReadStatus.would_block
    → (read_into recv b).1 ≡ b
unfolding read_into
read_into-would_block recv b h = elim (Bool-cases (remaining b == 0)) [
  | inl e ↦ rw e refl
  | inr e ↦ rw e (after_recv-would_block (recv (attempt b)) b (rw e at h))
]

module _ (max_in_flight : ℕ) where
  -- The place and the event loop that a step ends with.
  abbrev pub Ends : Place × EventLoop → Type 0
  Ends r = IsAttended max_in_flight r.0 r.1

  pub IsAttended-put :
      (place : Place) (c : Connection) (loop : EventLoop)
      → Others max_in_flight c.id loop
      → IsAttendedConnection max_in_flight place loop.epoll_calls c.id c
      → IsAttended max_in_flight place (put c loop)
  IsAttended-put place c loop o entry =
      IsAttended-of max_in_flight place c.id (put c loop) (Others-put max_in_flight c loop o)
        (λ d h.
          let there = find-put c loop in
          let same : c ≡ d = ground arith in
          subst (IsAttendedConnection max_in_flight place loop.epoll_calls c.id) same entry)

  -- A connection that is worked on, and not parsed, needs only be settled.
  pub working :
      (place : Place) (c : Connection) (loop : EventLoop)
      → works_on place c.id ≡ true
      → IsSettled max_in_flight c
      → IsAttendedConnection max_in_flight place loop.epoll_calls c.id c
  working place c loop w s = record {
    own = refl;
    settled = λ p. s;
    shown = λ p. absurd (ground arith);
  }

  pub under_parser :
      (caller : Caller) (c : Connection) (loop : EventLoop)
      → IsAttendedConnection max_in_flight (parsing caller c.id) loop.epoll_calls c.id c
  under_parser caller c loop = record {
    own = refl;
    settled = λ p. absurd (ground arith);
    shown = λ p. absurd (ground arith);
  }

  pub close_put-IsAttended :
      (place : Place) (send : Bytes → Sent) (c : Connection) (loop : EventLoop)
      → Others max_in_flight c.id loop
      → IsAttended max_in_flight place (close_connection send c.id c.generation (put c loop))
  close_put-IsAttended place send c loop o =
      close_connection-IsAttended max_in_flight place send c.id c.generation c (put c loop)
        (Others-put max_in_flight c loop o)
        (find_connection-of c.id (put c loop).connections c (find-put c loop))
        (λ d h. let there = find-put c loop in ground arith)

  pub begin_writable-Ends :
      (caller : Caller) (c : Connection) (loop : EventLoop)
      → Others max_in_flight c.id loop
      → IsSettled max_in_flight c
      → Ends (begin_writable caller c.id (put c loop))
  begin_writable-Ends caller c loop o s = subst Ends (sym (begin_writable-put caller c loop)) (
      IsAttended-put (writing caller c.id) c loop o
        (working (writing caller c.id) c loop (ground arith) s))

  after_read-Ends :
      (status : ReadStatus) (send : Bytes → Sent) (c : Connection) (loop : EventLoop)
      → Others max_in_flight c.id loop
      → (status ≡ ReadStatus.would_block → IsSettled max_in_flight c)
      → Ends (after_read status send c (put c loop))
  unfolding after_read
  after_read-Ends ReadStatus.read_some send c loop o s =
      IsAttended-put (parsing epoll_event c.id) c loop o (under_parser epoll_event c loop)
  after_read-Ends ReadStatus.would_block send c loop o s =
      begin_writable-Ends epoll_event c loop o (s refl)
  after_read-Ends ReadStatus.closed send c loop o s = close_put-IsAttended waiting send c loop o
  after_read-Ends ReadStatus.buffer_full send c loop o s =
      close_put-IsAttended waiting send c loop o
  after_read-Ends ReadStatus.error send c loop o s = close_put-IsAttended waiting send c loop o

  -- The others, and the connection itself, where a place works on it.
  pub split :
      (place : Place) (id : ℕ) (c : Connection) (loop : EventLoop)
      → ((j : ℕ) → (id == j) ≡ false → works_on place j ≡ false)
      → IsAttended max_in_flight place loop
      → find_current id loop.connections ≡ some c
      → (c.id ≡ id)
        × Others max_in_flight c.id loop
        × IsAttendedConnection max_in_flight place loop.epoll_calls id c
  unfolding find_current
  split place id c loop only a h =
      let k = a id c h in
      (
        k.own,
        subst (λ i. Others max_in_flight i loop) (sym k.own)
            (Others-of max_in_flight place id loop only a),
        k,
      )

  -- Where the connection is gone, nothing is left to do.
  pub missing :
      (place to : Place) (id : ℕ) (loop : EventLoop)
      → ((j : ℕ) → (id == j) ≡ false → works_on place j ≡ false)
      → find_current id loop.connections ≡ none
      → IsAttended max_in_flight place loop
      → IsAttended max_in_flight to loop
  unfolding find_current
  missing place to id loop only e a =
      IsAttended-of max_in_flight to id loop (Others-of max_in_flight place id loop only a)
        (λ d h. absurd (ground arith))

  pub read_step-Ends :
      (os : Os) (id : ℕ) (loop : EventLoop)
      → IsAttended max_in_flight (reading id) loop
      → Ends (read_step os id loop)
  unfolding read_step
  read_step-Ends os id loop a = elim (Option-cases (find_current id loop.connections)) [
    | inl e ↦ rw (e, read_step) (missing (reading id) waiting id loop (λ j h. h) e a)
    | inr (c, e) ↦
        let k = split (reading id) id c loop (λ j h. h) a e in
        let c' = record c { input = (read_into os.recv c.input).1 } in
        rw (e, read_step)
          (after_read-Ends _ os.send c' loop k.1 (λ blocked.
            let same = read_into-would_block os.recv c.input blocked in
            subst (λ b. IsSettled max_in_flight (record c { input = b })) (sym same)
              (k.2.settled refl)))
  ]
