-- ===== src/Storage/Shard/Invariant.antt =====
-- Every entry with a deadline has its candidate in the shard's heap, and the heap is in order.
use cpp_kv_store.Base.{Bytes, true, some, bytes_eq, bytes_eq_iff, ◌≡◌, arith, inl, inr, Bool-cases}
use cpp_kv_store.Base.Assoc.{Assoc, bytes_instance, find, erase, find-erase, find-insert}
use cpp_kv_store.Base.Int.{ℤ}
use cpp_kv_store.Storage.Time.{TimePoint, add_seconds}
use cpp_kv_store.Storage.Heap.{
  Heap, ExpirationCandidate, Holds, IsSorted, push-IsSorted, push-Holds, push-Holds_self,
}
use cpp_kv_store.Storage.Shard.{
  Entry, Shard, Seen-cases, read_live, seen_entry, empty_shard, set, exclusive_phase, del, expire,
  reschedule, next,
}

abbrev pub candidate_for : Bytes → Entry → TimePoint → ExpirationCandidate
candidate_for key entry deadline = record {
  deadline = deadline;
  generation = entry.generation;
  key = key;
}

-- Each entry with a deadline has its candidate in the heap.
pub record IsCovered (entries : Assoc Bytes Entry) (heap : Heap) : Type 0 where
  pub at_key :
      (k : Bytes) (entry : Entry) (deadline : TimePoint)
      → find k entries ≡ some entry
      → entry.deadline ≡ some deadline
      → Holds (candidate_for k entry deadline) heap

pub record IsValid (shard : Shard) : Type 0 where
  pub sorted : IsSorted shard.expiration_heap
  pub covered : IsCovered shard.entries shard.expiration_heap

pub IsCovered-erase :
    (key : Bytes) (entries : Assoc Bytes Entry) (heap : Heap)
    → IsCovered entries heap
    → IsCovered (erase key entries) heap
IsCovered-erase key entries heap c = record {
  at_key = λ k entry deadline found has.
      c.at_key k entry deadline (ground (arith, find-erase key k entries)) has;
}

pub empty_shard-IsValid : IsValid empty_shard
unfolding find
empty_shard-IsValid = record { sorted = tt; covered = record { at_key = λ k e d f h. cc } }

module _ (key : Bytes) (shard : Shard) (v : IsValid shard) where
  erased : IsValid (record shard { entries = erase key shard.entries })
  erased = record {
    sorted = v.sorted;
    covered = IsCovered-erase key shard.entries shard.expiration_heap v.covered;
  }

  pub set-IsValid : (value : Bytes) → IsValid (set key value shard)
  unfolding set
  set-IsValid value = record {
    sorted = v.sorted;
    covered = record {
      at_key = λ k entry deadline found has.
          v.covered.at_key k entry deadline
            (ground (arith, (rw find-insert at found), bytes_eq_iff key k)) has;
    };
  }

  pub exclusive_phase-IsValid : (now : TimePoint) → IsValid (exclusive_phase now key shard)
  unfolding exclusive_phase
  exclusive_phase-IsValid now = elim (Seen-cases (seen_entry now (find key shard.entries))) [
    | inl (_, e) ↦ rw (e, exclusive_phase) v
    | inr (inl e) ↦ rw (e, exclusive_phase) v
    | inr (inr e) ↦ rw (e, exclusive_phase) erased
  ]

  pub read_live-IsValid :
      {A : Type 0} (now : TimePoint) (on_live : Entry → A) (on_missing : A)
      → IsValid (read_live now key on_live on_missing shard).1
  unfolding read_live
  read_live-IsValid now on_live on_missing =
      elim (Seen-cases (seen_entry now (find key shard.entries))) [
        | inl (_, e) ↦ rw (e, read_live) v
        | inr (inl e) ↦ rw (e, read_live) v
        | inr (inr e) ↦ rw (e, read_live) (exclusive_phase-IsValid now)
      ]

  reschedule_at_key :
      (deadline : TimePoint) (entry e : Entry) (k : Bytes) (d : TimePoint)
      → find k (reschedule deadline key entry shard).entries ≡ some e
      → e.deadline ≡ some d
      → bytes_eq key k ≡ true
      → candidate_for k e d
        ≡ record { deadline = deadline; generation = next shard.next_generation; key = key }
  unfolding reschedule
  reschedule_at_key deadline entry e k d found has same =
      let stored = rw find-insert at found in ground (arith, bytes_eq_iff key k, stored)

  reschedule-IsValid :
      (deadline : TimePoint) (entry : Entry) → IsValid (reschedule deadline key entry shard)
  unfolding reschedule
  reschedule-IsValid deadline entry = record {
    sorted = push-IsSorted _ shard.expiration_heap v.sorted;
    covered = record {
      at_key = λ k e d found has. elim (Bool-cases (bytes_eq key k)) [
        | inl same ↦
            rw (reschedule_at_key deadline entry e k d found has same)
              (push-Holds_self _ shard.expiration_heap)
        | inr other ↦
            push-Holds _ _ shard.expiration_heap
              (v.covered.at_key k e d (ground (arith, (rw find-insert at found))) has)
      ];
    };
  }

  pub del-IsValid : (now : TimePoint) → IsValid (del now key shard).1
  unfolding del
  del-IsValid now = elim (Seen-cases (seen_entry now (find key shard.entries))) [
    | inl (_, e) ↦ rw (e, del) erased
    | inr (inl e) ↦ rw (e, del) v
    | inr (inr e) ↦ rw (e, del) erased
  ]

  pub expire-IsValid : (now : TimePoint) (seconds : ℤ) → IsValid (expire now key seconds shard).1
  unfolding expire
  expire-IsValid now seconds = elim (Seen-cases (seen_entry now (find key shard.entries))) [
    | inl (entry, e) ↦ rw (e, expire) (reschedule-IsValid (add_seconds now seconds) entry)
    | inr (inl e) ↦ rw (e, expire) v
    | inr (inr e) ↦ rw (e, expire) erased
  ]
