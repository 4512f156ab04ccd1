-- ===== src/Worker/BoundedQueue/Waiting.antt =====
-- The waits of include/kvstore/worker/bounded_queue.hpp: any number of threads call its operations, and
-- some of them sleep on its two condition variables. A wait, once it has the mutex, tests its
-- predicate, and sleeps if it does not hold; releasing the mutex and falling asleep are one step.
pub mod Wakes
use cpp_kv_store.Base.{ℕ, suc, ◌+◌, Bool, true, false, Option, none, some, List, length, ◌≡◌}
use cpp_kv_store.Worker.BoundedQueue.{
  BoundedQueue, PushStatus, PopStatus, try_push, push, pop, try_pop, close,
}

-- How many threads are where: at the test of a predicate, asleep, or, with the mutex released, before a
-- notify_one or before the notify_all of a close, of the one condition variable or the other.
pub record Waiting (T : Type 0) : Type 0 where
  pub queue : BoundedQueue T
  pub testing_pop : ℕ
  pub asleep_pop : ℕ
  pub testing_push : ℕ
  pub asleep_push : ℕ
  pub notify_not_empty : ℕ
  pub notify_not_full : ℕ
  pub notify_all_not_empty : ℕ
  pub notify_all_not_full : ℕ

module _ {T : Type 0} where
  -- Nobody uses the queue yet.
  abbrev pub unused_queue : BoundedQueue T → Waiting T
  unused_queue queue = record {
    queue = queue;
    testing_pop = 0;
    asleep_pop = 0;
    testing_push = 0;
    asleep_push = 0;
    notify_not_empty = 0;
    notify_not_full = 0;
    notify_all_not_empty = 0;
    notify_all_not_full = 0;
  }

  -- A push that has been made is followed by a notify_one of not_empty_.
  unfoldable pub after_push : PushStatus × BoundedQueue T → Waiting T → Waiting T
  after_push (PushStatus.ok, queue) w = record w {
    queue = queue;
    notify_not_empty = suc w.notify_not_empty;
  }
  after_push (PushStatus.full, queue) w = record w { queue = queue }
  after_push (PushStatus.closed, queue) w = record w { queue = queue }

  -- A pop that has been made is followed by a notify_one of not_full_.
  unfoldable pub after_pop : PopStatus T × BoundedQueue T → Waiting T → Waiting T
  after_pop (PopStatus.ok item, queue) w = record w {
    queue = queue;
    notify_not_full = suc w.notify_not_full;
  }
  after_pop (PopStatus.closed, queue) w = record w { queue = queue }
  after_pop (PopStatus.stopped, queue) w = record w { queue = queue }

  unfoldable pub after_try_pop : Option T × BoundedQueue T → Waiting T → Waiting T
  after_try_pop (none, queue) w = record w { queue = queue }
  after_try_pop (some item, queue) w = record w {
    queue = queue;
    notify_not_full = suc w.notify_not_full;
  }

  unfoldable pub after_close : Waiting T → Waiting T
  after_close w = record w {
    queue = close w.queue;
    notify_all_not_empty = suc w.notify_all_not_empty;
    notify_all_not_full = suc w.notify_all_not_full;
  }

  -- One thread makes a step.
  pub data WaitStep : Waiting T → Waiting T → Type 0 where
    -- pop, which is called, tests its predicate, and returns or sleeps.
    calls_pop : {w : Waiting T} → WaitStep w (record w { testing_pop = suc w.testing_pop })
    pops :
        (stop : Bool) (n : ℕ) (r : PopStatus T × BoundedQueue T) {w : Waiting T}
        → w.testing_pop ≡ suc n
        → pop stop w.queue ≡ some r
        → WaitStep w (after_pop r (record w { testing_pop = n }))
    pop_sleeps :
        (n : ℕ) {w : Waiting T}
        → w.testing_pop ≡ suc n
        → pop false w.queue ≡ none
        → WaitStep w (record w { testing_pop = n; asleep_pop = suc w.asleep_pop })
    -- push, in the same way.
    calls_push : {w : Waiting T} → WaitStep w (record w { testing_push = suc w.testing_push })
    pushes :
        (item : T) (n : ℕ) (r : PushStatus × BoundedQueue T) {w : Waiting T}
        → w.testing_push ≡ suc n
        → push item w.queue ≡ some r
        → WaitStep w (after_push r (record w { testing_push = n }))
    push_sleeps :
        (item : T) (n : ℕ) {w : Waiting T}
        → w.testing_push ≡ suc n
        → push item w.queue ≡ none
        → WaitStep w (record w { testing_push = n; asleep_push = suc w.asleep_push })
    -- The operations that do not wait.
    tries_push : (item : T) {w : Waiting T} → WaitStep w (after_push (try_push item w.queue) w)
    tries_pop : {w : Waiting T} → WaitStep w (after_try_pop (try_pop w.queue) w)
    closes : {w : Waiting T} → WaitStep w (after_close w)
    -- A sleeping wait wakes by itself, or since a stop is requested.
    pop_wakes :
        (n : ℕ) {w : Waiting T}
        → w.asleep_pop ≡ suc n
        → WaitStep w (record w { asleep_pop = n; testing_pop = suc w.testing_pop })
    push_wakes :
        (n : ℕ) {w : Waiting T}
        → w.asleep_push ≡ suc n
        → WaitStep w (record w { asleep_push = n; testing_push = suc w.testing_push })
    -- notify_one wakes a sleeping wait, if there is one.
    notifies_pop :
        (k n : ℕ) {w : Waiting T}
        → w.notify_not_empty ≡ suc k
        → w.asleep_pop ≡ suc n
        → WaitStep w
            (record w { notify_not_empty = k; asleep_pop = n; testing_pop = suc w.testing_pop })
    notifies_no_pop :
        (k : ℕ) {w : Waiting T}
        → w.notify_not_empty ≡ suc k
        → w.asleep_pop ≡ 0
        → WaitStep w (record w { notify_not_empty = k })
    notifies_push :
        (k n : ℕ) {w : Waiting T}
        → w.notify_not_full ≡ suc k
        → w.asleep_push ≡ suc n
        → WaitStep w
            (record w { notify_not_full = k; asleep_push = n; testing_push = suc w.testing_push })
    notifies_no_push :
        (k : ℕ) {w : Waiting T}
        → w.notify_not_full ≡ suc k
        → w.asleep_push ≡ 0
        → WaitStep w (record w { notify_not_full = k })
    -- notify_all wakes all.
    notifies_all_pop :
        (k : ℕ) {w : Waiting T}
        → w.notify_all_not_empty ≡ suc k
        → WaitStep w (record w {
          notify_all_not_empty = k;
          asleep_pop = 0;
          testing_pop = w.testing_pop + w.asleep_pop;
        })
    notifies_all_push :
        (k : ℕ) {w : Waiting T}
        → w.notify_all_not_full ≡ suc k
        → WaitStep w (record w {
          notify_all_not_full = k;
          asleep_push = 0;
          testing_push = w.testing_push + w.asleep_push;
        })

  pub data WaitRun : Waiting T → Waiting T → Type 0 where
    not_used : {w : Waiting T} → WaitRun w w
    then_wait : {w middle to : Waiting T} → WaitRun w middle → WaitStep middle to → WaitRun w to
