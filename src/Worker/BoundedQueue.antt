-- ===== src/Worker/BoundedQueue.antt =====
-- `BoundedQueue<T>` of include/kvstore/worker/bounded_queue.hpp. Each operation is its critical
-- section; `none` is a wait: the operation keeps waiting on its condition variable in that state.
pub mod History
pub mod Drain
pub mod Waiting
use cpp_kv_store.Base.{
  ℕ, Bool, true, false, ◌||◌, Option, none, some, List, [], ◌∷◌, ◌++◌, length, ltb, leb, ◌==◌,
  if◌then◌else◌,
}

pub data PushStatus : Type 0 where
  ok full closed : PushStatus

-- What a pop returns; `ok` carries what is moved to `out`.
pub data PopStatus (T : Type 0) : Type 0 where
  ok : T → PopStatus T
  closed : PopStatus T
  stopped : PopStatus T

pub record BoundedQueue (T : Type 0) : Type 0 where
  pub items : List T
  pub capacity : ℕ
  pub is_closed : Bool

module _ {T : Type 0} where
  -- The constructor; `none` is the std::invalid_argument.
  unfoldable pub new_queue : ℕ → Option (BoundedQueue T)
  new_queue capacity =
      if capacity == 0
      then none
      else some (record { items = []; capacity = capacity; is_closed = false })

  abbrev pushed : T → BoundedQueue T → BoundedQueue T
  pushed item q = record q { items = q.items ++ item ∷ [] }

  unfoldable pub try_push : T → BoundedQueue T → PushStatus × BoundedQueue T
  try_push item q =
      if q.is_closed
      then (PushStatus.closed, q)
      else if leb q.capacity (length q.items)
      then (full, q)
      else (PushStatus.ok, pushed item q)

  -- not_full_.wait, and then what follows it.
  unfoldable pub push : T → BoundedQueue T → Option (PushStatus × BoundedQueue T)
  push item q =
      if q.is_closed || ltb (length q.items) q.capacity
      then some (if q.is_closed then (PushStatus.closed, q) else (PushStatus.ok, pushed item q))
      else none

  -- `stop` says whether the token requests to stop. not_empty_.wait returns the predicate's value
  -- once the predicate holds or a stop is requested.
  unfoldable pub pop_items : Bool → List T → BoundedQueue T → Option (PopStatus T × BoundedQueue T)
  pop_items stop (item ∷ items) q = some (PopStatus.ok item, record q { items = items })
  pop_items stop [] q =
      if q.is_closed then some (PopStatus.closed, q) else if stop then some (stopped, q) else none

  unfoldable pub pop : Bool → BoundedQueue T → Option (PopStatus T × BoundedQueue T)
  unfolding pop_items
  pop stop q = pop_items stop q.items q

  unfoldable pub try_pop_items : List T → BoundedQueue T → Option T × BoundedQueue T
  try_pop_items [] q = (none, q)
  try_pop_items (item ∷ items) q = (some item, record q { items = items })

  unfoldable pub try_pop : BoundedQueue T → Option T × BoundedQueue T
  unfolding try_pop_items
  try_pop q = try_pop_items q.items q

  unfoldable pub close : BoundedQueue T → BoundedQueue T
  close q = record q { is_closed = true }
