-- ===== src/Tests/Pool.antt =====
-- The worker pool.
use cpp_kv_store.Base.{
  ℕ, zero, suc, false, true, List, [], ◌∷◌, ◌≡◌, ◌≤◌, ◌<◌, ◌+◌, ◌*◌, refl, inl, length, arith,
  codes,
}
use cpp_kv_store.Base.Totals.{total}
use cpp_kv_store.Base.Int.{pos}
use cpp_kv_store.Protocol.Command.{CommandType}
use cpp_kv_store.Protocol.Serializer.{encode_simple_string}
use cpp_kv_store.Storage.Store.{store_of}
use cpp_kv_store.Command.{dispatch, dispatch_type}
use cpp_kv_store.Net.Wakeup.{wake}
use cpp_kv_store.Worker.BoundedQueue.{push, pop, pop_items}
use cpp_kv_store.Worker.Items.{WorkItem, Completion}
use cpp_kv_store.Worker.Pool.{
  idle, stopped, after_pop, after_push, work, Pool, move, Run, here, then_step, IsStuck,
}
use cpp_kv_store.Worker.Pool.Tokens.{weight, Run-weight}
use cpp_kv_store.Worker.Pool.Shutdown.{effort, IsDraining}
use cpp_kv_store.Worker.Pool.Shutdown.Joins.{live, shutdown-ends, shutdown-hangs}

abbrev ping_of : ℕ → WorkItem
ping_of sequence = record {
  connection_id = 5;
  connection_generation = 1;
  sequence = sequence;
  command = record { type = CommandType.ping; key = []; value = []; seconds = pos 0 };
}

abbrev pool_of : List WorkItem → Pool
pool_of items = record {
  workers = idle ∷ [];
  shared = record {
    store = store_of 2;
    work_queue = record { items = items; capacity = 2; is_closed = true };
    completion_queue = record { items = []; capacity = 1; is_closed = false };
    wakeups = 0;
  };
}

abbrev answered : ℕ → Completion
answered sequence = record {
  connection_id = 5;
  connection_generation = 1;
  sequence = sequence;
  response = encode_simple_string (codes "PONG");
}

-- The thread has taken the only request, answered it, woken the event loop, found the queue closed and returned.
abbrev finished : Pool
finished = record {
  workers = stopped ∷ [];
  shared = record {
    store = store_of 2;
    work_queue = record { items = []; capacity = 2; is_closed = true };
    completion_queue = record { items = answered 0 ∷ []; capacity = 1; is_closed = false };
    wakeups = 1;
  };
}

serves : Run length 5 (pool_of (ping_of 0 ∷ [])) finished
unfolding work after_pop after_push pop pop_items push dispatch dispatch_type store_of
    encode_simple_string wake
serves =
    then_step
      (then_step
        (then_step
          (then_step (then_step here (move 0 10 false _ _ (omega arith) refl))
            (move 0 10 false _ _ (omega arith) refl))
          (move 0 10 false _ _ (omega arith) refl))
        (move 0 10 false _ _ (omega arith) refl))
      (move 0 10 false _ _ (omega arith) refl)

finished-IsStuck : IsStuck length finished
unfolding work
finished-IsStuck zero now stop inside = refl
finished-IsStuck (suc i) now stop inside = absurd (omega arith)

-- With two requests and room for one completion, the thread waits at the push of the second.
abbrev blocked : Pool
blocked = pool_of (ping_of 0 ∷ ping_of 1 ∷ [])

IsDraining-pool_of : (items : List WorkItem) → IsDraining (pool_of items)
IsDraining-pool_of items = record {
  closed = refl;
  opened = refl;
  bounded = omega arith;
  returned = inl refl;
}

Run-weight_example :
    (weight (λ c g s. s + 1) finished ≡ weight (λ c g s. s + 1) (pool_of (ping_of 0 ∷ [])))
    × (finished.shared.completion_queue.is_closed ≡ false)
Run-weight_example =
    Run-weight (λ c g s. s + 1) length 5 (pool_of (ping_of 0 ∷ [])) finished serves refl

shutdown-ends_example : 5 ≤ 4 * 1 + total effort (idle ∷ [])
shutdown-ends_example =
    shutdown-ends length 5 (pool_of (ping_of 0 ∷ [])) finished serves (IsDraining-pool_of _)

shutdown-hangs_example : 0 < total live blocked.workers
shutdown-hangs_example =
    shutdown-hangs length 0 blocked blocked here (IsDraining-pool_of _) (omega arith) (omega arith)
