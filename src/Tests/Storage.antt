-- ===== src/Tests/Storage.antt =====
-- The storage engine.
use cpp_kv_store.Base.{
  ◌<◌, ℕ, ◌+◌, ◌-◌, ◌*◌, ◌/◌, ◌^◌, ◌≤◌, true, false, none, some, [], ◌∷◌, ◌≡◌, refl, ◌⊎◌, arith,
  length, codes, ltb, if◌then◌else◌,
}
use cpp_kv_store.Base.Assoc.{bytes_instance, find, erase, insert}
use cpp_kv_store.Base.Int.{pos}
use cpp_kv_store.Storage.Time.{nanos_per_second, add_seconds}
use cpp_kv_store.Storage.Heap.{push}
use cpp_kv_store.Storage.Shard
use cpp_kv_store.Storage.Shard.{Shard, Entry, empty_shard, has_ttl, exclusive_phase, is_expired}
use cpp_kv_store.Storage.Shard.Expiry.{expire_lifetime, ttl_after_expire, expire_overflow}
use cpp_kv_store.Storage.Shard.Invariant.{IsValid, empty_shard-IsValid, set-IsValid, expire-IsValid}
use cpp_kv_store.Storage.Shard.Reachable.{start, after, set_step, expire_step, Reachable-IsValid}
use cpp_kv_store.Storage.Shard.Views.{shard_view-exclusive_phase}
use cpp_kv_store.Storage.View.{Binding, shard_view}
use cpp_kv_store.Storage.Store
use cpp_kv_store.Storage.Store.{Store, store_of, shard_index, normalize_shard_count}
use cpp_kv_store.Storage.Store.ShardCount.{RoundsUp, normalize_shard_count-RoundsUp}
use cpp_kv_store.Storage.Store.Sweep.{sweep_shard, sweep_heap}
use cpp_kv_store.Storage.Store.Sweep.Thorough.{due, sweep_shard-thorough}
use cpp_kv_store.Storage.TtlSweeper
use cpp_kv_store.Storage.TtlSweeper.Unseen.{run-view}
use cpp_kv_store.Storage.Store.Views.{view}

-- Two keys; "a" expires 5 seconds after time 0.
two_keys : Shard
unfolding Shard.set Shard.expire Shard.reschedule push find erase insert add_seconds
two_keys =
    (Shard.expire 0 (codes "a") (pos 5)
      (Shard.set (codes "b") (codes "2") (Shard.set (codes "a") (codes "1") empty_shard))).1

two_keys-IsValid : IsValid two_keys
unfolding two_keys
two_keys-IsValid =
    expire-IsValid (codes "a") _
      (set-IsValid (codes "b") _
        (set-IsValid (codes "a") empty_shard empty_shard-IsValid (codes "1")) (codes "2"))
      0 (pos 5)

Reachable-IsValid_example : IsValid two_keys
unfolding two_keys
Reachable-IsValid_example = Reachable-IsValid _ (
    after
      (after (after start (set_step (codes "a") (codes "1"))) (set_step (codes "b") (codes "2")))
      (expire_step 0 (codes "a") (pos 5)))

sweep_removes : (sweep_shard 20 (5 * nanos_per_second) two_keys).0 ≡ 1
unfolding two_keys sweep_shard sweep_heap
sweep_removes = refl

sweep_too_early : (sweep_shard 20 (4 * nanos_per_second) two_keys).0 ≡ 0
unfolding two_keys sweep_shard sweep_heap
sweep_too_early = refl

-- "a" expires between the two passes.
abbrev expiring : Store
expiring =
    (Store.expire length 0 (codes "a") (pos 5) (
      Store.set length (codes "b") (codes "2")
        (Store.set length (codes "a") (codes "1") (store_of 2)))).1

run-view_example :
    view length 9000000000 (TtlSweeper.run 20 (4000000000 ∷ 6000000000 ∷ []) expiring) (codes "b")
    ≡ view length 9000000000 expiring (codes "b")
run-view_example =
    run-view length 20 (4000000000 ∷ 6000000000 ∷ []) 9000000000 expiring (codes "b")
      (omega arith, (omega arith, tt))

left_entry : Entry
left_entry = record { value = codes "2"; deadline = none; generation = 2 }

left_found : find (codes "b") (sweep_shard 20 6000000000 two_keys).1.entries ≡ some left_entry
unfolding two_keys left_entry sweep_shard sweep_heap
left_found = refl

two_keys-due : due 6000000000 two_keys.expiration_heap ≤ 20
unfolding due two_keys
two_keys-due = omega arith

sweep_shard-thorough_example : is_expired left_entry 6000000000 ≡ false
sweep_shard-thorough_example =
    sweep_shard-thorough 20 6000000000 two_keys (codes "b") left_entry two_keys-IsValid two_keys-due
      left_found

shard_view-exclusive_phase_example :
    shard_view 7000000000 (exclusive_phase 6000000000 (codes "a") two_keys) (codes "b")
    ≡ shard_view 7000000000 two_keys (codes "b")
shard_view-exclusive_phase_example =
    shard_view-exclusive_phase 6000000000 7000000000 (omega arith) (codes "a") two_keys (codes "b")

abbrev two : Binding
two = record { value = codes "2"; deadline = none }

seen_two : shard_view 10 two_keys (codes "b") ≡ some two
unfolding two_keys shard_view
seen_two = refl

expire_lifetime_example :
    ((Shard.expire 10 (codes "b") (pos 3) two_keys).0 ≡ true)
    × ((Shard.get 2000000000 (codes "b") (Shard.expire 10 (codes "b") (pos 3) two_keys).1).0
        ≡ (if ltb 2000000000 (10 + 3 * nanos_per_second) then some (codes "2") else none))
expire_lifetime_example =
    expire_lifetime 10 3 (codes "b") two_keys two seen_two 2000000000 (omega arith) (omega arith)

ttl_after_expire_example :
    (Shard.ttl 2000000000 (codes "b") (Shard.expire 10 (codes "b") (pos 3) two_keys).1).0
    ≡ has_ttl (pos ((10 + 3 * nanos_per_second - 2000000000) / nanos_per_second))
ttl_after_expire_example =
    ttl_after_expire 10 3 (codes "b") two_keys two seen_two 2000000000 (omega arith) (omega arith)
      (omega arith) (omega arith)

-- The greatest number of seconds that the parser accepts.
abbrev max_seconds : ℕ
max_seconds = 2 ^ 63 - 1

seen_two_later : shard_view (2 ^ 63 + 10000000000) two_keys (codes "b") ≡ some two
unfolding two_keys shard_view
seen_two_later = refl

expire_overflow_example :
    ((Shard.expire (2 ^ 63 + 10000000000) (codes "b") (pos max_seconds) two_keys).0 ≡ true)
    × ((Shard.get
          (2 ^ 63 + 10000000000)
          (codes "b")
          (Shard.expire (2 ^ 63 + 10000000000) (codes "b") (pos max_seconds) two_keys).1).0
        ≡ none)
expire_overflow_example =
    expire_overflow (2 ^ 63 + 10000000000) max_seconds (codes "b") two_keys two seen_two_later
      (omega arith)

normalize_shard_count-RoundsUp_example :
    ((◌≡◌ {A = ℕ} 20 0) × (normalize_shard_count 20 ≡ none))
    ⊎ ((0 < 20) × ((count : ℕ) × (normalize_shard_count 20 ≡ some count) × RoundsUp 20 count))
normalize_shard_count-RoundsUp_example = normalize_shard_count-RoundsUp 20 (omega arith)

normalize_test : normalize_shard_count 20 ≡ some 32
unfolding normalize_shard_count
normalize_test = refl
