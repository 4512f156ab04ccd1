-- ===== src/Storage/Store/Sweep/Views.antt =====
-- Store::sweep_expired of src/storage/store.cpp, as a client sees it.
use cpp_kv_store.Base.{
  ℕ, zero, suc, ◌+◌, ◌≤◌, Bytes, true, false, [], ◌∷◌, ltb, bytes_eq_iff, ◌≡◌, refl, ◌∙◌, arith,
  inl, inr, Bool-cases,
}
use cpp_kv_store.Base.Assoc.{bytes_instance, find, erase, find-erase}
use cpp_kv_store.Storage.Time.{TimePoint}
use cpp_kv_store.Storage.Heap.{Heap, ExpirationCandidate}
use cpp_kv_store.Storage.Shard.{Shard}
use cpp_kv_store.Storage.View.{shard_view}
use cpp_kv_store.Storage.Store.Sweep.{
  still_matches, sweep_heap, sweep_shard, sweep_heap_ahead, sweep_heap_erases, sweep_heap_drops,
}

-- Erasing an entry that still matches a candidate whose deadline has passed.
shard_view-erase_matching :
    (now t : TimePoint) (c : ExpirationCandidate) (shard : Shard) (k : Bytes)
    → now ≤ t
    → ltb now c.deadline ≡ false
    → still_matches c (find c.key shard.entries) ≡ true
    → shard_view t (record shard { entries = erase c.key shard.entries }) k ≡ shard_view t shard k
unfolding shard_view still_matches
shard_view-erase_matching now t c shard k later due matches =
    ground (arith, find-erase c.key k shard.entries, bytes_eq_iff c.key k)

shard_view-sweep_heap :
    (left : ℕ) (now t : TimePoint) (heap : Heap) (shard : Shard) (removed : ℕ) (k : Bytes)
    → now ≤ t
    → shard_view t (sweep_heap left now heap shard removed).1 k ≡ shard_view t shard k
shard_view-sweep_heap zero now t heap shard removed k later = unfold sweep_heap shard_view in refl
shard_view-sweep_heap (suc left) now t [] shard removed k later =
    unfold sweep_heap shard_view in refl
shard_view-sweep_heap (suc left) now t (c ∷ heap) shard removed k later =
    elim (Bool-cases (ltb now c.deadline)) [
      | inl ahead ↦
          rw (sweep_heap_ahead left now c heap shard removed ahead) (unfold shard_view in refl)
      | inr due ↦ elim (Bool-cases (still_matches c (find c.key shard.entries))) [
        | inl matches ↦ rw (sweep_heap_erases left now c heap shard removed due matches) (
            shard_view-sweep_heap left now t heap _ (removed + 1) k later
            ∙ shard_view-erase_matching now t c shard k later due matches)
        | inr stale ↦
            rw (sweep_heap_drops left now c heap shard removed due stale)
              (shard_view-sweep_heap left now t heap shard removed k later)
      ]
    ]

-- A sweep of a shard cannot be seen, at its time or later.
pub shard_view-sweep_shard :
    (max_items : ℕ) (now t : TimePoint) (shard : Shard) (k : Bytes)
    → now ≤ t
    → shard_view t (sweep_shard max_items now shard).1 k ≡ shard_view t shard k
unfolding sweep_shard
shard_view-sweep_shard max_items now t shard k later =
    shard_view-sweep_heap max_items now t shard.expiration_heap shard 0 k later

removed_bounds :
    (left : ℕ) (now : TimePoint) (heap : Heap) (shard : Shard) (removed : ℕ)
    → (removed ≤ (sweep_heap left now heap shard removed).0)
      × ((sweep_heap left now heap shard removed).0 ≤ removed + left)
unfolding sweep_heap
removed_bounds zero now heap shard removed = omega arith
removed_bounds (suc left) now [] shard removed = omega arith
removed_bounds (suc left) now (c ∷ heap) shard removed = ground (
  arith,
  removed_bounds left now heap shard removed,
  removed_bounds left now heap (record shard { entries = erase c.key shard.entries }) (removed + 1),
)

-- A pass over a shard removes at most as many entries as it may look at.
pub sweep_shard-le :
    (max_items : ℕ) (now : TimePoint) (shard : Shard)
    → (sweep_shard max_items now shard).0 ≤ max_items
unfolding sweep_shard
sweep_shard-le max_items now shard =
    omega (arith, (removed_bounds max_items now shard.expiration_heap shard 0).1)
