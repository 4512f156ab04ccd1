-- ===== src/Server/Start/Shutdown.antt =====
-- The end of `main` of src/main.cpp: the destructor of the pool, once the event loop has returned.
use cpp_kv_store.Base.{ℕ, ◌≤◌, ◌<◌, Bytes, List, ◌≡◌, ◌⊎◌, refl, subst, inl, inr, arith}
use cpp_kv_store.Base.Totals.{total}
use cpp_kv_store.Cli.Options.{LogLevel}
use cpp_kv_store.Worker.BoundedQueue.{close}
use cpp_kv_store.Worker.Pool.{Pool, Run, IsStuck, close_work}
use cpp_kv_store.Worker.Pool.Shutdown.{load, IsDraining}
use cpp_kv_store.Worker.Pool.Shutdown.Joins.{live, shutdown-finishes, shutdown-hangs}
use cpp_kv_store.Server.{Server, ServerRun}
use cpp_kv_store.Server.Awake.Runs.{IsServing, ServerRun-IsServing}
use cpp_kv_store.Server.Start.{StartCalls, default_config, serving, main}
use cpp_kv_store.Server.Start.Ready.{main-IsReady}

le-or-lt : (a b : ℕ) → (a ≤ b) ⊎ (b < a)
le-or-lt a b = ground arith

close_work-IsDraining : (server : Server) → IsServing server → IsDraining (close_work server.pool)
unfolding close_work close
close_work-IsDraining server s = record {
  closed = refl;
  opened = s.opened;
  bounded = s.bounded;
  returned = inl s.staying;
}

-- Of a server that `main` runs, after any steps: when the destructor of the pool has closed the work
-- queue, and the threads have made steps until none of them can make another, then either the requests
-- that were left fit into the completion queue and all threads have returned, so that the joins
-- return; or they do not fit, and a thread waits for room for ever.
pub main-shutdown :
    (args : List Bytes) (calls : StartCalls) (level : LogLevel) (hash : Bytes → ℕ) (n k : ℕ)
    (server at_end : Server) (to : Pool)
    → main args calls ≡ serving level server
    → ServerRun default_config hash n server at_end
    → Run hash k (close_work at_end.pool) to
    → IsStuck hash to
    → ((load at_end.pool ≤ at_end.pool.shared.completion_queue.capacity)
        × (total live to.workers ≡ 0))
      ⊎ ((at_end.pool.shared.completion_queue.capacity < load at_end.pool)
          × (0 < total live to.workers))
unfolding close_work close
main-shutdown args calls level hash n k server at_end to h run joins stuck =
    let (pool, (same, ready)) = main-IsReady args calls level server h in
    let s =
      ServerRun-IsServing default_config hash n pool at_end
        (subst (λ s. ServerRun default_config hash n s at_end) same run) ready in
    let d = close_work-IsDraining at_end s in
    elim (le-or-lt (load at_end.pool) at_end.pool.shared.completion_queue.capacity) [
      | inl room ↦
          inl (room, shutdown-finishes hash k (close_work at_end.pool) to joins d room stuck)
      | inr heavy ↦
          inr (heavy, shutdown-hangs hash k (close_work at_end.pool) to joins d s.threads heavy)
    ]
