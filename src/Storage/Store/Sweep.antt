-- ===== src/Storage/Store/Sweep.antt =====
-- Store::sweep_expired of src/storage/store.cpp.
pub mod Views
pub mod Thorough
use cpp_kv_store.Base.{
  ℕ, zero, suc, ◌+◌, ◌%◌, Bytes, Bool, true, false, ◌&&◌, Option, none, some, List, [], ◌∷◌, ltb,
  ◌==◌, if◌then◌else◌, ◌≡◌, refl,
}
use cpp_kv_store.Base.Assoc.{bytes_instance, find, erase}
use cpp_kv_store.Storage.Time.{TimePoint, word}
use cpp_kv_store.Storage.Heap.{ExpirationCandidate, Heap}
use cpp_kv_store.Storage.Shard.{Entry, Shard}
use cpp_kv_store.Storage.Store.{Store}

-- entry.deadline.has_value() && *entry.deadline == deadline
unfoldable pub has_deadline : Option TimePoint → TimePoint → Bool
has_deadline none deadline = false
has_deadline (some d) deadline = d == deadline

-- The live entry is still the one that the candidate was made for.
unfoldable pub still_matches : ExpirationCandidate → Option Entry → Bool
unfolding has_deadline
still_matches candidate none = false
still_matches candidate (some entry) =
    (entry.generation == candidate.generation) && has_deadline entry.deadline candidate.deadline

-- The `while` over the heap, with what is left of `max_items_per_shard`. It returns the entries that
-- are left, the heap that is left and the number of entries removed.
unfoldable pub sweep_heap : ℕ → TimePoint → Heap → Shard → ℕ → ℕ × Shard
unfolding still_matches
sweep_heap zero now heap shard removed = (removed, record shard { expiration_heap = heap })
sweep_heap (suc left) now [] shard removed = (removed, record shard { expiration_heap = [] })
sweep_heap (suc left) now (candidate ∷ heap) shard removed =
    let erased =
      sweep_heap left now heap (record shard { entries = erase candidate.key shard.entries })
        (removed + 1) in
    let kept = sweep_heap left now heap shard removed in
    if ltb now candidate.deadline
    then (removed, record shard { expiration_heap = candidate ∷ heap })
    else if still_matches candidate (find candidate.key shard.entries)
    then erased
    else kept

-- A round that stops, one that erases, and one that drops a stale candidate.
module _ (left : ℕ) (now : TimePoint) (c : ExpirationCandidate) (heap : Heap) (shard : Shard) where
  pub sweep_heap_ahead :
      (removed : ℕ)
      → ltb now c.deadline ≡ true
      → sweep_heap (suc left) now (c ∷ heap) shard removed
        ≡ (removed, record shard { expiration_heap = c ∷ heap })
  unfolding sweep_heap
  sweep_heap_ahead removed ahead = rw ahead

  pub sweep_heap_erases :
      (removed : ℕ)
      → ltb now c.deadline ≡ false
      → still_matches c (find c.key shard.entries) ≡ true
      → sweep_heap (suc left) now (c ∷ heap) shard removed
        ≡ sweep_heap left now heap
            (record shard { entries = erase c.key shard.entries })
            (removed + 1)
  unfolding sweep_heap
  sweep_heap_erases removed due matches = rw (due, matches)

  pub sweep_heap_drops :
      (removed : ℕ)
      → ltb now c.deadline ≡ false
      → still_matches c (find c.key shard.entries) ≡ false
      → sweep_heap (suc left) now (c ∷ heap) shard removed ≡ sweep_heap left now heap shard removed
  unfolding sweep_heap
  sweep_heap_drops removed due stale = rw (due, stale)

-- One shard's part of a pass, under its lock.
unfoldable pub sweep_shard : ℕ → TimePoint → Shard → ℕ × Shard
sweep_shard max_items now shard = sweep_heap max_items now shard.expiration_heap shard 0

-- The loop over the shards, with the total so far.
unfoldable pub sweep_shards : ℕ → TimePoint → List Shard → ℕ → ℕ × List Shard
sweep_shards max_items now [] total = (total, [])
sweep_shards max_items now (shard ∷ shards) total =
    let (removed, shard') = sweep_shard max_items now shard in
    let (all, shards') = sweep_shards max_items now shards (total + removed) in
    (all, shard' ∷ shards')

-- The counter is a std::atomic<std::uint64_t>.
unfoldable pub sweep_expired : ℕ → TimePoint → Store → ℕ × Store
sweep_expired max_items now store =
    let (total, shards) = sweep_shards max_items now store.shards 0 in
    let store' = record store { shards = shards } in
    (
      total,
      if ltb 0 total
          then record store' { active_expirations = (store.active_expirations + total) % word }
          else store',
    )
