-- ===== src/Server/Awake/Handlers.antt =====
-- What the handlers of src/net/event_loop.cpp leave of the queues and of the eventfd.
use cpp_kv_store.Base.{
  ℕ, Bytes, Bool, ◌==◌, none, some, ◌≡◌, refl, ◌∙◌, inl, inr, length, Option, Bool-cases,
  Option-cases,
}
use cpp_kv_store.Net.ConnectionRegistry.{
  Connection, ConnectionRegistry, find_connection, find_current,
}
use cpp_kv_store.Net.Io.{Sent, ReadStatus, WriteStatus}
use cpp_kv_store.Net.Listener.{AcceptRound, accepted, none_pending, retry, failure}
use cpp_kv_store.Net.EventLoop.Steps.{
  EventLoop, EventLoopConfig, Os, Caller, epoll_event, completion, back_to, close_connection,
  begin_writable, update_epoll_interest, after_add, accept_step, after_read, read_step, after_write,
  write_step,
}
use cpp_kv_store.Server.Awake.{owed, drains, Calm, Stays}

pub Calm-refl : (loop : EventLoop) → Calm loop loop
Calm-refl loop = record { completion_queue = refl; wakeups = refl; closed = refl }

Calm-trans : (a b c : EventLoop) → Calm a b → Calm b c → Calm a c
Calm-trans a b c h k = record {
  completion_queue = k.completion_queue ∙ h.completion_queue;
  wakeups = k.wakeups ∙ h.wakeups;
  closed = k.closed ∙ h.closed;
}

pub owed-back_to : (caller : Caller) → drains (back_to caller) ≡ owed caller
owed-back_to epoll_event = refl
owed-back_to completion = refl

close_connection-Calm :
    (send : Bytes → Sent) (id generation : ℕ) (loop : EventLoop)
    → Calm loop (close_connection send id generation loop)
unfolding close_connection
close_connection-Calm send id generation loop =
    elim (Option-cases (find_connection id generation loop.connections)) [
      | inl e ↦ rw (e, close_connection) (Calm-refl loop)
      | inr (c, e) ↦
          rw (e, close_connection)
            (record { completion_queue = refl; wakeups = refl; closed = refl })
    ]

pub closing-Stays :
    (caller : Caller) (send : Bytes → Sent) (id generation : ℕ) (loop to : EventLoop)
    → Calm loop to
    → Stays (owed caller) loop (back_to caller, close_connection send id generation to)
closing-Stays caller send id generation loop to calm =
    (owed-back_to caller, Calm-trans loop to _ calm (close_connection-Calm send id generation to))

pub begin_writable-Stays :
    (caller : Caller) (id : ℕ) (loop to : EventLoop)
    → Calm loop to
    → Stays (owed caller) loop (begin_writable caller id to)
unfolding begin_writable
begin_writable-Stays caller id loop to calm = elim (Option-cases (find_current id to.connections)) [
  | inl e ↦ rw (e, begin_writable) (owed-back_to caller, calm)
  | inr (c, e) ↦ rw (e, begin_writable) (refl, calm)
]

after_add-Stays :
    (registered : Bool) (r : Option Connection × ConnectionRegistry) (loop : EventLoop)
    → Stays 0 loop (after_add registered r loop)
unfolding after_add
after_add-Stays registered (none, registry) loop =
    (refl, record { completion_queue = refl; wakeups = refl; closed = refl })
after_add-Stays registered (some c, registry) loop =
    (refl, record { completion_queue = refl; wakeups = refl; closed = refl })

pub accept_step-Stays :
    (config : EventLoopConfig) (answer : AcceptRound) (registered : Bool) (loop : EventLoop)
    → Stays 0 loop (accept_step config answer registered loop)
unfolding accept_step
accept_step-Stays config none_pending registered loop = (refl, Calm-refl loop)
accept_step-Stays config retry registered loop = (refl, Calm-refl loop)
accept_step-Stays config failure registered loop = (refl, Calm-refl loop)
accept_step-Stays config (accepted fd peer) registered loop = after_add-Stays registered _ loop

after_read-Stays :
    (status : ReadStatus) (send : Bytes → Sent) (c : Connection) (loop to : EventLoop)
    → Calm loop to
    → Stays 0 loop (after_read status send c to)
unfolding after_read
after_read-Stays ReadStatus.read_some send c loop to calm = (refl, calm)
after_read-Stays ReadStatus.would_block send c loop to calm =
    begin_writable-Stays epoll_event c.id loop to calm
after_read-Stays ReadStatus.closed send c loop to calm =
    closing-Stays epoll_event send _ _ loop to calm
after_read-Stays ReadStatus.buffer_full send c loop to calm =
    closing-Stays epoll_event send _ _ loop to calm
after_read-Stays ReadStatus.error send c loop to calm =
    closing-Stays epoll_event send _ _ loop to calm

pub read_step-Stays : (os : Os) (id : ℕ) (loop : EventLoop) → Stays 0 loop (read_step os id loop)
unfolding read_step
read_step-Stays os id loop = elim (Option-cases (find_current id loop.connections)) [
  | inl e ↦ rw (e, read_step) (refl, Calm-refl loop)
  | inr (c, e) ↦
      rw (e, read_step)
        (after_read-Stays _ os.send _ loop _
          (record { completion_queue = refl; wakeups = refl; closed = refl }))
]

after_write-Stays :
    (status : WriteStatus) (send : Bytes → Sent) (caller : Caller) (c : Connection)
    (loop to : EventLoop)
    → Calm loop to
    → Stays (owed caller) loop (after_write status send caller c to)
unfolding after_write update_epoll_interest
after_write-Stays WriteStatus.wrote_some send caller c loop to calm = (refl, calm)
after_write-Stays WriteStatus.would_block send caller c loop to calm = (
  owed-back_to caller,
  record { completion_queue = calm.completion_queue; wakeups = calm.wakeups; closed = calm.closed },
)
after_write-Stays WriteStatus.closed send caller c loop to calm =
    closing-Stays caller send _ _ loop to calm
after_write-Stays WriteStatus.error send caller c loop to calm =
    closing-Stays caller send _ _ loop to calm

pub write_step-Stays :
    (os : Os) (caller : Caller) (id : ℕ) (loop : EventLoop)
    → Stays (owed caller) loop (write_step os caller id loop)
unfolding write_step update_epoll_interest
write_step-Stays os caller id loop = elim (Option-cases (find_current id loop.connections)) [
  | inl e ↦ rw (e, write_step) (owed-back_to caller, Calm-refl loop)
  | inr (c, e) ↦ elim (Bool-cases (length c.output.bytes == 0)) [
    | inl f ↦
        rw (e, write_step, f)
          (owed-back_to caller, record { completion_queue = refl; wakeups = refl; closed = refl })
    | inr f ↦
        rw (e, write_step, f)
          (after_write-Stays _ os.send caller _ loop _
            (record { completion_queue = refl; wakeups = refl; closed = refl }))
  ]
]
