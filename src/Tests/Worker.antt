-- ===== src/Tests/Worker.antt =====
-- The bounded queue.
use cpp_kv_store.Base.{ℕ, ◌≤◌, true, false, some, List, [], ◌∷◌, ◌≡◌, ◌⊎◌, refl, length}
use cpp_kv_store.Worker.BoundedQueue.{
  BoundedQueue, PopStatus, push, try_push, pop, pop_items, try_pop, try_pop_items, close,
}
use cpp_kv_store.Worker.BoundedQueue.History.{
  Call, try_push_call, push_call, try_pop_call, pop_call, close_call, run, effect_of, IsFifo,
  run-IsFifo,
}
use cpp_kv_store.Worker.BoundedQueue.Waiting.{
  Waiting, unused_queue, after_push, after_pop, calls_pop, pops, pop_sleeps, calls_push, pushes,
  push_sleeps, notifies_pop, notifies_no_pop, notifies_no_push, WaitRun, not_used, then_wait,
}
use cpp_kv_store.Worker.BoundedQueue.Waiting.Wakes.{WaitRun-awake}
use cpp_kv_store.Worker.BoundedQueue.Drain.{pop_all, pop_all-close}

abbrev two_of_two : BoundedQueue ℕ
two_of_two = record { items = 1 ∷ 2 ∷ []; capacity = 2; is_closed = false }

abbrev calls : List (Call ℕ)
calls =
    try_push_call 3
    ∷ pop_call false
    ∷ push_call 4
    ∷ push_call 5
    ∷ close_call
    ∷ try_push_call 6
    ∷ try_pop_call
    ∷ []

run_test : run calls two_of_two ≡ record {
  accepted = 4 ∷ [];
  taken = 1 ∷ 2 ∷ [];
  queue = record { items = 4 ∷ []; capacity = 2; is_closed = true };
}
unfolding run effect_of push try_push pop pop_items try_pop try_pop_items close
run_test = refl

run-IsFifo_example : IsFifo two_of_two (run calls two_of_two)
run-IsFifo_example = run-IsFifo calls two_of_two

pop_all-close_example : pop_all true 3 (close two_of_two) ≡ (1 ∷ 2 ∷ [], some PopStatus.closed)
pop_all-close_example = pop_all-close true two_of_two

-- A thread sleeps in pop, is woken by a push, and takes the item; of two more pushes the second sleeps.
abbrev one_place : BoundedQueue ℕ
one_place = record { items = []; capacity = 1; is_closed = false }

abbrev push_waits : Waiting ℕ
push_waits = record (unused_queue (record one_place { items = 4 ∷ [] })) { asleep_push = 1 }

waits : WaitRun (unused_queue one_place) push_waits
unfolding pop pop_items push after_push after_pop
waits =
    let slept = then_wait (then_wait not_used calls_pop) (pop_sleeps 0 refl refl) in
    let given = then_wait (then_wait slept calls_push) (pushes 3 0 _ refl refl) in
    let taken =
      then_wait (then_wait given (notifies_pop 0 0 refl refl)) (pops false 0 _ refl refl) in
    let room = then_wait taken (notifies_no_push 0 refl refl) in
    let full = then_wait (then_wait room calls_push) (pushes 4 0 _ refl refl) in
    let told = then_wait full (notifies_no_pop 0 refl refl) in
    then_wait (then_wait told calls_push) (push_sleeps 5 0 refl refl)

WaitRun-awake_example :
    ((push_waits.asleep_pop ≡ 0)
      ⊎ ((push_waits.queue.is_closed ≡ false) × (length push_waits.queue.items ≡ 0)))
    × ((push_waits.asleep_push ≡ 0)
        ⊎ ((push_waits.queue.is_closed ≡ false)
            × (push_waits.queue.capacity ≤ length push_waits.queue.items)))
WaitRun-awake_example = WaitRun-awake one_place push_waits waits refl refl
