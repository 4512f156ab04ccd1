-- ===== src/Storage/TtlSweeper.antt =====
-- `TtlSweeper` of src/storage/ttl_sweeper.cpp and include/kvstore/storage/ttl_sweeper.hpp. A pass is
-- at the time that its clock returns; the interruptible sleep between two passes is left out.
pub mod Unseen
use cpp_kv_store.Base.{ℕ, List, [], ◌∷◌}
use cpp_kv_store.Storage.Time.{TimePoint}
use cpp_kv_store.Storage.Store.{Store}
use cpp_kv_store.Storage.Store.Sweep.{sweep_expired}

abbrev pub default_max_items_per_shard : ℕ
default_max_items_per_shard = 20

-- The passes until a stop is requested, at their times.
unfoldable pub run : ℕ → List TimePoint → Store → Store
run max_items [] store = store
run max_items (now ∷ times) store = run max_items times (sweep_expired max_items now store).1
