-- ===== src/Server/Attended/Writes.antt =====
-- The writes of src/net/event_loop.cpp, and what an event starts.
use cpp_kv_store.Base.{
  ℕ, Bytes, ◌==◌, some, ◌≡◌, refl, sym, subst, arith, inl, inr, Bool-cases, Option-cases, length,
}
use cpp_kv_store.Base.Assoc.{nat_eq, find}
use cpp_kv_store.Net.ConnectionRegistry.{Connection, find_current}
use cpp_kv_store.Net.Io.{Sent, WriteStatus, write_from}
use cpp_kv_store.Net.EventLoop.Closing.{find_connection-of}
use cpp_kv_store.Net.EventLoop.Steps.{
  EventLoop, Caller, epoll_event, waiting, accepting, draining, returned, reading, writing, back_to,
  put, Os, update_epoll_interest, begin_writable, after_write, write_step, Event, stop_requested,
  wakeup, listener_readable, hangup, readable, writable, on_event,
}
use cpp_kv_store.Server.Attended.{
  IsSettled, IsAttendedConnection, IsAttended, Others, Others-of, IsAttended-any, Others-put,
  Others-mod, IsAttended-of, close_connection-IsAttended,
}
use cpp_kv_store.Server.Attended.Handlers.{
  find-put, Ends, IsAttended-put, working, close_put-IsAttended, split, missing,
}

module _ (max_in_flight : ℕ) where
  -- Once the interest is updated, the connection is shown.
  update-Ends :
      (caller : Caller) (c : Connection) (loop : EventLoop)
      → Others max_in_flight c.id loop
      → find c.id loop.connections.connections ≡ some c
      → IsSettled max_in_flight c
      → IsAttended max_in_flight (back_to caller) (update_epoll_interest c loop)
  unfolding update_epoll_interest
  update-Ends caller c loop o h s =
      IsAttended-of max_in_flight (back_to caller) c.id (update_epoll_interest c loop)
        (Others-mod max_in_flight c.id _ loop o)
        (λ d k.
          let same : c ≡ d = ground arith in
          subst
            (IsAttendedConnection max_in_flight (back_to caller)
              (update_epoll_interest c loop).epoll_calls c.id)
            same (record { own = refl; settled = λ p. s; shown = λ p. ground arith }))

  after_write-Ends :
      (status : WriteStatus) (send : Bytes → Sent) (caller : Caller) (c : Connection)
      (loop : EventLoop)
      → Others max_in_flight c.id loop
      → IsSettled max_in_flight c
      → Ends max_in_flight (after_write status send caller c (put c loop))
  unfolding after_write
  after_write-Ends WriteStatus.wrote_some send caller c loop o s =
      IsAttended-put max_in_flight (writing caller c.id) c loop o
        (working max_in_flight (writing caller c.id) c loop (ground arith) s)
  after_write-Ends WriteStatus.would_block send caller c loop o s =
      update-Ends caller c (put c loop) (Others-put max_in_flight c loop o) (find-put c loop) s
  after_write-Ends WriteStatus.closed send caller c loop o s =
      close_put-IsAttended max_in_flight (back_to caller) send c loop o
  after_write-Ends WriteStatus.error send caller c loop o s =
      close_put-IsAttended max_in_flight (back_to caller) send c loop o

  pub write_step-Ends :
      (os : Os) (caller : Caller) (id : ℕ) (loop : EventLoop)
      → IsAttended max_in_flight (writing caller id) loop
      → Ends max_in_flight (write_step os caller id loop)
  unfolding write_step find_current
  write_step-Ends os caller id loop a = elim (Option-cases (find_current id loop.connections)) [
    | inl e ↦
        rw (e, write_step)
          (missing max_in_flight (writing caller id) (back_to caller) id loop (λ j h. h) e a)
    | inr (c, e) ↦
        let k = split max_in_flight (writing caller id) id c loop (λ j h. h) a e in
        elim (Bool-cases (length c.output.bytes == 0)) [
          | inl f ↦
              rw (e, write_step, f)
                (update-Ends caller c loop k.1
                  (subst (λ i. find i loop.connections.connections ≡ some c) (sym k.0) e)
                  (k.2.settled refl))
          | inr f ↦
              rw (e, write_step, f)
                (after_write-Ends _ os.send caller
                  (record c { output = (write_from os.send c.output).1 }) loop k.1
                  (k.2.settled refl))
        ]
  ]

  pub on_event-Ends :
      (send : Bytes → Sent) (event : Event) (loop : EventLoop)
      → IsAttended max_in_flight waiting loop
      → Ends max_in_flight (on_event send event loop)
  unfolding on_event begin_writable find_current
  on_event-Ends send stop_requested loop a =
      IsAttended-any max_in_flight waiting returned loop (λ j. refl) a
  on_event-Ends send wakeup loop a =
      IsAttended-any max_in_flight waiting draining loop (λ j. refl) a
  on_event-Ends send listener_readable loop a =
      IsAttended-any max_in_flight waiting accepting loop (λ j. refl) a
  on_event-Ends send (hangup id) loop a = elim (Option-cases (find_current id loop.connections)) [
    | inl e ↦ rw (e, on_event) a
    | inr (c, e) ↦
        rw (e, on_event)
          (close_connection-IsAttended max_in_flight waiting send id c.generation c loop
            (Others-of max_in_flight waiting id loop (λ j h. refl) a)
            (find_connection-of id loop.connections c e) (λ d h. (a id d h).own))
  ]
  on_event-Ends send (readable id) loop a = elim (Option-cases (find_current id loop.connections)) [
    | inl e ↦ rw (e, on_event) a
    | inr (c, e) ↦
        rw (e, on_event) (IsAttended-any max_in_flight waiting (reading id) loop (λ j. refl) a)
  ]
  on_event-Ends send (writable id) loop a = elim (Option-cases (find_current id loop.connections)) [
    | inl e ↦ rw (e, begin_writable) a
    | inr (c, e) ↦
        rw (e, begin_writable)
          (IsAttended-any max_in_flight waiting (writing epoll_event id) loop (λ j. refl) a)
  ]
