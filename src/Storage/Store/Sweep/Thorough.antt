-- ===== src/Storage/Store/Sweep/Thorough.antt =====
-- Store::sweep_expired of src/storage/store.cpp: what a pass with enough room leaves behind.
use cpp_kv_store.Base.{
  ℕ, zero, suc, ◌+◌, ◌≤◌, Bytes, false, some, [], ◌∷◌, ltb, if◌then◌else◌, ◌≡◌, arith, inl, inr,
  Bool-cases, ap, bytes_eq_iff, Option-cases,
}
use cpp_kv_store.Base.Assoc.{bytes_instance, find, erase, find-erase}
use cpp_kv_store.Storage.Time.{TimePoint}
use cpp_kv_store.Storage.Heap.{
  Heap, ExpirationCandidate, AllFrom, IsSorted, AllFrom-Holds, AllFrom-mono,
}
use cpp_kv_store.Storage.Shard.{Entry, Shard, is_expired}
use cpp_kv_store.Storage.Shard.Invariant.{IsCovered, IsValid, candidate_for}
use cpp_kv_store.Storage.Store.Sweep.{
  still_matches, sweep_heap, sweep_shard, sweep_heap_ahead, sweep_heap_erases, sweep_heap_drops,
}

-- The candidates whose deadlines have passed.
unfoldable pub due : TimePoint → Heap → ℕ
due now [] = 0
due now (c ∷ heap) = (if ltb now c.deadline then 0 else 1) + due now heap

-- In a sorted heap a top that is ahead has all others ahead.
none_due :
    (now : TimePoint) (heap : Heap) → IsSorted heap → due now heap ≡ 0 → AllFrom (suc now) heap
unfolding due
none_due now [] sorted h = tt
none_due now (c ∷ heap) sorted h = (ground arith, none_due now heap sorted.1 (ground arith))

-- A candidate that no longer matches can go: no entry rests on it.
IsCovered-drop :
    (c : ExpirationCandidate) (heap : Heap) (shard : Shard)
    → still_matches c (find c.key shard.entries) ≡ false
    → IsCovered shard.entries (c ∷ heap)
    → IsCovered shard.entries heap
unfolding still_matches
IsCovered-drop c heap shard stale covered = record {
  at_key = λ k entry d found has. elim (covered.at_key k entry d found has) [
    | inr h ↦ h
    | inl e ↦ let kept = rw (e, found) at stale in absurd (ground (arith, kept, has))
  ];
}

IsCovered-erase_top :
    (c : ExpirationCandidate) (heap : Heap) (shard : Shard)
    → IsCovered shard.entries (c ∷ heap)
    → IsCovered (erase c.key shard.entries) heap
IsCovered-erase_top c heap shard covered = record {
  at_key = λ k entry d found has.
      elim (covered.at_key k entry d (ground (arith, find-erase c.key k shard.entries)) has) [
        | inr h ↦ h
        | inl e ↦ absurd (
            ground (
              arith,
              find-erase c.key k shard.entries,
              ap (λ (d : ExpirationCandidate). d.key) e,
              bytes_eq_iff c.key k,
            ))
      ];
}

-- After the loop nothing that is due is left in the heap, if there was room for it.
sweep_heap-AllFrom :
    (left : ℕ) (now : TimePoint) (heap : Heap) (shard : Shard) (removed : ℕ)
    → IsSorted heap
    → due now heap ≤ left
    → AllFrom (suc now) (sweep_heap left now heap shard removed).1.expiration_heap
sweep_heap-AllFrom zero now heap shard removed sorted room =
    unfold sweep_heap in none_due now heap sorted (omega arith)
sweep_heap-AllFrom (suc left) now [] shard removed sorted room = unfold sweep_heap in tt
sweep_heap-AllFrom (suc left) now (c ∷ heap) shard removed sorted room =
    elim (Bool-cases (ltb now c.deadline)) [
      | inl ahead ↦
          rw (sweep_heap_ahead left now c heap shard removed ahead)
            (ground arith, AllFrom-mono (suc now) c.deadline heap (ground arith) sorted.0)
      | inr late ↦ elim (Bool-cases (still_matches c (find c.key shard.entries))) [
        | inl matches ↦
            rw (sweep_heap_erases left now c heap shard removed late matches) (
              sweep_heap-AllFrom left now heap _ (removed + 1) sorted.1
                (unfold due in ground arith))
        | inr stale ↦
            rw (sweep_heap_drops left now c heap shard removed late stale)
              (sweep_heap-AllFrom left now heap shard removed sorted.1 (unfold due in ground arith))
      ]
    ]

sweep_heap-IsValid :
    (left : ℕ) (now : TimePoint) (heap : Heap) (shard : Shard) (removed : ℕ)
    → IsSorted heap
    → IsCovered shard.entries heap
    → IsValid (sweep_heap left now heap shard removed).1
sweep_heap-IsValid zero now heap shard removed sorted covered =
    unfold sweep_heap in record { sorted = sorted; covered = covered }
sweep_heap-IsValid (suc left) now [] shard removed sorted covered =
    unfold sweep_heap in record { sorted = sorted; covered = covered }
sweep_heap-IsValid (suc left) now (c ∷ heap) shard removed sorted covered =
    elim (Bool-cases (ltb now c.deadline)) [
      | inl ahead ↦
          rw (sweep_heap_ahead left now c heap shard removed ahead)
            (record { sorted = sorted; covered = covered })
      | inr late ↦ elim (Bool-cases (still_matches c (find c.key shard.entries))) [
        | inl matches ↦ rw (sweep_heap_erases left now c heap shard removed late matches) (
            sweep_heap-IsValid left now heap _ (removed + 1) sorted.1
              (IsCovered-erase_top c heap shard covered))
        | inr stale ↦ rw (sweep_heap_drops left now c heap shard removed late stale) (
            sweep_heap-IsValid left now heap shard removed sorted.1
              (IsCovered-drop c heap shard stale covered))
      ]
    ]

pub sweep_shard-IsValid :
    (max_items : ℕ) (now : TimePoint) (shard : Shard)
    → IsValid shard
    → IsValid (sweep_shard max_items now shard).1
unfolding sweep_shard
sweep_shard-IsValid max_items now shard v =
    sweep_heap-IsValid max_items now shard.expiration_heap shard 0 v.sorted v.covered

sweep_shard-AllFrom :
    (max_items : ℕ) (now : TimePoint) (shard : Shard)
    → IsValid shard
    → due now shard.expiration_heap ≤ max_items
    → AllFrom (suc now) (sweep_shard max_items now shard).1.expiration_heap
unfolding sweep_shard
sweep_shard-AllFrom max_items now shard v room =
    sweep_heap-AllFrom max_items now shard.expiration_heap shard 0 v.sorted room

-- A pass over a valid shard that may look at as many candidates as are due leaves no expired entry.
pub sweep_shard-thorough :
    (max_items : ℕ) (now : TimePoint) (shard : Shard) (key : Bytes) (entry : Entry)
    → IsValid shard
    → due now shard.expiration_heap ≤ max_items
    → find key (sweep_shard max_items now shard).1.entries ≡ some entry
    → is_expired entry now ≡ false
unfolding is_expired
sweep_shard-thorough max_items now shard key entry v room found =
    elim (Option-cases entry.deadline) [
      | inl e ↦ ground arith
      | inr (d, e) ↦
          let held =
            (sweep_shard-IsValid max_items now shard v).covered.at_key key entry d found e in
          let later =
            AllFrom-Holds (suc now) (candidate_for key entry d)
              (sweep_shard max_items now shard).1.expiration_heap
              (sweep_shard-AllFrom max_items now shard v room) held in
          ground (arith, later)
    ]
