-- ===== src/Storage/TtlSweeper/Unseen.antt =====
-- The passes of `TtlSweeper` of src/storage/ttl_sweeper.cpp, as a client sees them.
use cpp_kv_store.Base.{
  ℕ, zero, suc, ◌≤◌, Bytes, List, [], ◌∷◌, get_or, ltb, ◌≡◌, refl, ◌∙◌, Bool-cases, inl, inr,
}
use cpp_kv_store.Storage.Time.{TimePoint}
use cpp_kv_store.Storage.Shard.{Shard, empty_shard}
use cpp_kv_store.Storage.View.{shard_view}
use cpp_kv_store.Storage.Store.{Store, shard_for, shard_index}
use cpp_kv_store.Storage.Store.Views.{view}
use cpp_kv_store.Storage.Store.Sweep.{sweep_shards, sweep_expired}
use cpp_kv_store.Storage.Store.Sweep.Views.{shard_view-sweep_shard}
use cpp_kv_store.Storage.TtlSweeper.{run}

-- The times of the passes are not after `t`.
abbrev pub AllBefore : TimePoint → List TimePoint → Type 0
AllBefore t [] = Unit {0}
AllBefore t (now ∷ times) = (now ≤ t) × AllBefore t times

get_or-sweep_shards :
    (max_items : ℕ) (now t : TimePoint) (shards : List Shard) (total i : ℕ) (k : Bytes)
    → now ≤ t
    → shard_view t (get_or (sweep_shards max_items now shards total).1 i empty_shard) k
      ≡ shard_view t (get_or shards i empty_shard) k
unfolding sweep_shards
get_or-sweep_shards max_items now t [] total i k later = refl
get_or-sweep_shards max_items now t (shard ∷ shards) total zero k later =
    shard_view-sweep_shard max_items now t shard k later
get_or-sweep_shards max_items now t (shard ∷ shards) total (suc i) k later =
    get_or-sweep_shards max_items now t shards _ i k later

view-sweep_expired :
    (hash : Bytes → ℕ) (max_items : ℕ) (now t : TimePoint) (store : Store) (k : Bytes)
    → now ≤ t
    → view hash t (sweep_expired max_items now store).1 k ≡ view hash t store k
unfolding view shard_for shard_index sweep_expired
view-sweep_expired hash max_items now t store k later =
    let kept =
      get_or-sweep_shards max_items now t store.shards 0 (shard_index hash store k) k later in
    elim (Bool-cases (ltb 0 (sweep_shards max_items now store.shards 0).0)) [
      | inl e ↦ rw e kept
      | inr e ↦ rw e kept
    ]

-- However many passes the sweeper makes over all shards, at times that are not after t, and however
-- many items it takes in each: the live entry of any key at the time t is as it was.
pub run-view :
    (hash : Bytes → ℕ) (max_items : ℕ) (times : List TimePoint) (t : TimePoint) (store : Store)
    (k : Bytes)
    → AllBefore t times
    → view hash t (run max_items times store) k ≡ view hash t store k
unfolding run
run-view hash max_items [] t store k before = refl
run-view hash max_items (now ∷ times) t store k before =
    run-view hash max_items times t (sweep_expired max_items now store).1 k before.1
    ∙ view-sweep_expired hash max_items now t store k before.0
