-- ===== src/Storage/Shard/Reachable.antt =====
-- The shards that the operations of src/storage/store.cpp can reach, as a step relation: each step is
-- one critical section under the shard's exclusive lock.
use cpp_kv_store.Base.{ℕ, Bytes}
use cpp_kv_store.Base.Int.{ℤ}
use cpp_kv_store.Storage.Time.{TimePoint}
use cpp_kv_store.Storage.Shard.{Shard, empty_shard, set, del, expire, exclusive_phase}
use cpp_kv_store.Storage.Shard.Invariant.{
  IsValid, empty_shard-IsValid, set-IsValid, exclusive_phase-IsValid, del-IsValid, expire-IsValid,
}
use cpp_kv_store.Storage.Store.Sweep.{sweep_shard}
use cpp_kv_store.Storage.Store.Sweep.Thorough.{sweep_shard-IsValid}

pub data Step : Shard → Shard → Type 0 where
  set_step : (key value : Bytes) {shard : Shard} → Step shard (set key value shard)
  clean_step :
      (now : TimePoint) (key : Bytes) {shard : Shard} → Step shard (exclusive_phase now key shard)
  del_step : (now : TimePoint) (key : Bytes) {shard : Shard} → Step shard (del now key shard).1
  expire_step :
      (now : TimePoint) (key : Bytes) (seconds : ℤ) {shard : Shard}
      → Step shard (expire now key seconds shard).1
  sweep_step :
      (max_items : ℕ) (now : TimePoint) {shard : Shard}
      → Step shard (sweep_shard max_items now shard).1

pub data Reachable : Shard → Type 0 where
  start : Reachable empty_shard
  after : {shard shard' : Shard} → Reachable shard → Step shard shard' → Reachable shard'

Step-IsValid : (shard shard' : Shard) → Step shard shard' → IsValid shard → IsValid shard'
Step-IsValid shard _ (set_step key value) v = set-IsValid key shard v value
Step-IsValid shard _ (clean_step now key) v = exclusive_phase-IsValid key shard v now
Step-IsValid shard _ (del_step now key) v = del-IsValid key shard v now
Step-IsValid shard _ (expire_step now key seconds) v = expire-IsValid key shard v now seconds
Step-IsValid shard _ (sweep_step max_items now) v = sweep_shard-IsValid max_items now shard v

-- In every shard that sets, deletions, expirations, cleanups and sweeps reach from an empty one, at
-- any times, the candidates are sorted by their deadlines, and each entry with a deadline has its
-- candidate among them.
pub Reachable-IsValid : (shard : Shard) → Reachable shard → IsValid shard
Reachable-IsValid shard start = empty_shard-IsValid
Reachable-IsValid shard (after r s) = Step-IsValid _ shard s (Reachable-IsValid _ r)
