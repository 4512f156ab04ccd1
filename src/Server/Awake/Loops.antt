-- ===== src/Server/Awake/Loops.antt =====
-- What a step of the event loop of src/net/event_loop.cpp leaves of the queues and of the eventfd.
use cpp_kv_store.Base.{
  ◌≤◌, ap, Bytes, ◌≡◌, refl, ◌⊎◌, inl, inr, sym, ◌<◌, length, arith, List, [], ◌∷◌, Option-cases,
}
use cpp_kv_store.Net.ConnectionRegistry.{find_current}
use cpp_kv_store.Net.Io.{Sent}
use cpp_kv_store.Net.Listener.{accept_round}
use cpp_kv_store.Net.EventLoop.Steps.{
  EventLoop, EventLoopConfig, Os, Event, stop_requested, wakeup, listener_readable, hangup,
  readable, writable, epoll_event, Place, waiting, accepting, draining, returned, reading, parsing,
  writing, on_event, on_completion, after_try_pop, drain_step, loop_step,
}
use cpp_kv_store.Worker.BoundedQueue.{BoundedQueue, try_pop, try_pop_items}
use cpp_kv_store.Worker.Items.{Completion}
use cpp_kv_store.Server.Awake.{drains, Stays}
use cpp_kv_store.Server.Awake.Handlers.{
  Calm-refl, closing-Stays, begin_writable-Stays, accept_step-Stays, read_step-Stays,
  write_step-Stays,
}
use cpp_kv_store.Server.Awake.Parses.{parse_step-Stays, on_completion-Stays}

-- A step of the event loop empties the completion queue, or is at it, or leaves it as it was.
pub record Watches (place : Place) (loop : EventLoop) (r : Place × EventLoop) : Type 0 where
  pub told :
      (length r.1.completion_queue.items ≡ 0) ⊎ ((0 < drains r.0) ⊎ Stays (drains place) loop r)
  pub closed : r.1.work_queue.is_closed ≡ loop.work_queue.is_closed
  pub opened : r.1.completion_queue.is_closed ≡ loop.completion_queue.is_closed
  pub capacity : r.1.completion_queue.capacity ≡ loop.completion_queue.capacity
  pub fewer : length r.1.completion_queue.items ≤ length loop.completion_queue.items

Watches-Stays :
    (place : Place) (loop : EventLoop) (r : Place × EventLoop)
    → Stays (drains place) loop r
    → Watches place loop r
Watches-Stays place loop r s = record {
  told = inr (inr s);
  closed = s.1.closed;
  opened = rw s.1.completion_queue refl;
  capacity = rw s.1.completion_queue refl;
  fewer = rw s.1.completion_queue (omega arith);
}

on_event-Watches :
    (send : Bytes → Sent) (event : Event) (loop : EventLoop)
    → Watches waiting loop (on_event send event loop)
unfolding on_event
on_event-Watches send stop_requested loop = Watches-Stays waiting loop _ (refl, Calm-refl loop)
on_event-Watches send wakeup loop = record {
  told = inr (inl (omega arith));
  closed = refl;
  opened = refl;
  capacity = refl;
  fewer = omega arith;
}
on_event-Watches send listener_readable loop = Watches-Stays waiting loop _ (refl, Calm-refl loop)
on_event-Watches send (hangup id) loop = elim (Option-cases (find_current id loop.connections)) [
  | inl e ↦ rw (e, on_event) (Watches-Stays waiting loop _ (refl, Calm-refl loop))
  | inr (c, e) ↦
      rw (e, on_event)
        (Watches-Stays waiting loop _
          (closing-Stays epoll_event send id c.generation loop loop (Calm-refl loop)))
]
on_event-Watches send (readable id) loop = elim (Option-cases (find_current id loop.connections)) [
  | inl e ↦ rw (e, on_event) (Watches-Stays waiting loop _ (refl, Calm-refl loop))
  | inr (c, e) ↦ rw (e, on_event) (Watches-Stays waiting loop _ (refl, Calm-refl loop))
]
on_event-Watches send (writable id) loop =
    Watches-Stays waiting loop _ (begin_writable-Stays epoll_event id loop loop (Calm-refl loop))

-- A completion that is popped is followed by another try_pop.
popped-Watches :
    (send : Bytes → Sent) (done : Completion) (queue : BoundedQueue Completion) (loop : EventLoop)
    → queue.is_closed ≡ loop.completion_queue.is_closed
    → queue.capacity ≡ loop.completion_queue.capacity
    → length queue.items ≤ length loop.completion_queue.items
    → Watches draining loop (on_completion send done (record loop { completion_queue = queue }))
popped-Watches send done queue loop opened capacity fewer =
    let s = on_completion-Stays send done (record loop { completion_queue = queue }) in
    record {
      told = inr (inl (omega (arith, s.0)));
      closed = s.1.closed;
      opened = rw s.1.completion_queue opened;
      capacity = rw s.1.completion_queue capacity;
      fewer = rw s.1.completion_queue fewer;
    }

drain_step-Watches : (os : Os) (loop : EventLoop) → Watches draining loop (drain_step os loop)
unfolding drain_step try_pop try_pop_items after_try_pop
drain_step-Watches os loop = drained_from loop.completion_queue.items refl
  where
    drained_from :
        (items : List Completion)
        → items ≡ loop.completion_queue.items
        → Watches draining loop (
            after_try_pop os.send
              (try_pop_items items loop.completion_queue).0
              (record loop { completion_queue = (try_pop_items items loop.completion_queue).1 }))
    drained_from [] e = record {
      told = inl (rw (sym e) refl);
      closed = refl;
      opened = refl;
      capacity = refl;
      fewer = omega arith;
    }
    drained_from (done ∷ items) e =
        let size = ap length e in popped-Watches os.send done _ loop refl refl (omega arith)

pub loop_step-Watches :
    (config : EventLoopConfig) (os : Os) (place : Place) (loop : EventLoop)
    → Watches place loop (loop_step config os place loop)
unfolding loop_step
loop_step-Watches config os waiting loop = on_event-Watches os.send os.event loop
loop_step-Watches config os accepting loop =
    Watches-Stays accepting loop _
      (accept_step-Stays config (accept_round os.accepted) os.registered loop)
loop_step-Watches config os draining loop = drain_step-Watches os loop
loop_step-Watches config os returned loop = Watches-Stays returned loop _ (refl, Calm-refl loop)
loop_step-Watches config os (reading id) loop =
    Watches-Stays (reading id) loop _ (read_step-Stays os id loop)
loop_step-Watches config os (parsing caller id) loop =
    Watches-Stays (parsing caller id) loop _ (parse_step-Stays config os caller id loop)
loop_step-Watches config os (writing caller id) loop =
    Watches-Stays (writing caller id) loop _ (write_step-Stays os caller id loop)
