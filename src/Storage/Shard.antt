-- ===== src/Storage/Shard.antt =====
-- `Entry`, `Shard` and `is_expired` of src/storage/shard.hpp, and what src/storage/store.cpp does to
-- one shard under its lock. `now` is what the clock returned to the operation.
pub mod Views
pub mod Invariant
pub mod Expiry
pub mod Reachable
use cpp_kv_store.Base.{
  ℕ, ◌+◌, ◌%◌, [], Bytes, Bool, true, false, Option, none, some, leb, if◌then◌else◌, ◌≡◌, refl, ◌⊎◌,
  inl, inr,
}
use cpp_kv_store.Base.Assoc.{Assoc, bytes_instance, find, erase, insert}
use cpp_kv_store.Base.Int.{ℤ}
use cpp_kv_store.Storage.Time.{TimePoint, word, add_seconds, remaining_seconds}
use cpp_kv_store.Storage.Heap.{Heap, ExpirationCandidate, push}

pub record Entry : Type 0 where
  pub value : Bytes
  pub deadline : Option TimePoint
  pub generation : ℕ

pub record Shard : Type 0 where
  pub entries : Assoc Bytes Entry
  pub next_generation : ℕ
  pub expiration_heap : Heap

abbrev pub empty_shard : Shard
empty_shard = record { entries = []; next_generation = 0; expiration_heap = [] }

-- deadline.has_value() && *deadline <= now
unfoldable pub has_passed : Option TimePoint → TimePoint → Bool
has_passed none now = false
has_passed (some deadline) now = leb deadline now

unfoldable pub is_expired : Entry → TimePoint → Bool
unfolding has_passed
is_expired entry now = has_passed entry.deadline now

-- ++next_generation, in uint64_t
unfoldable pub next : ℕ → ℕ
next generation = (generation + 1) % word

-- Store::set, on the key's shard.
unfoldable pub set : Bytes → Bytes → Shard → Shard
unfolding next
set key value shard =
    let generation = next shard.next_generation in
    record shard {
      entries =
          insert key (record { value = value; deadline = none; generation = generation })
            shard.entries;
      next_generation = generation;
    }

-- What the first phase of `read_live` finds under the shared lock.
pub data Seen : Type 0 where
  live : Entry → Seen
  missing : Seen
  expired : Seen

pub Seen-cases : (s : Seen) → ((e : Entry) × (s ≡ live e)) ⊎ ((s ≡ missing) ⊎ (s ≡ expired))
Seen-cases (live e) = inl (e, refl)
Seen-cases missing = inr (inl refl)
Seen-cases expired = inr (inr refl)

unfoldable pub seen_entry : TimePoint → Option Entry → Seen
unfolding is_expired
seen_entry now none = missing
seen_entry now (some entry) = if is_expired entry now then expired else live entry

unfoldable pub shared_phase : TimePoint → Bytes → Shard → Seen
unfolding seen_entry
shared_phase now key shard = seen_entry now (find key shard.entries)

-- The second phase, under the exclusive lock: it looks the key up again before it erases.
unfoldable pub exclusive_phase : TimePoint → Bytes → Shard → Shard
unfolding seen_entry
exclusive_phase now key shard = elim (seen_entry now (find key shard.entries)) [
  | expired ↦ record shard { entries = erase key shard.entries }
  | _ ↦ shard
]

-- `read_live` with nothing between its two phases.
unfoldable pub read_live : {A : Type 0} → TimePoint → Bytes → (Entry → A) → A → Shard → A × Shard
unfolding shared_phase exclusive_phase
read_live now key on_live on_missing shard = elim (shared_phase now key shard) [
  | live entry ↦ (on_live entry, shard)
  | missing ↦ (on_missing, shard)
  | expired ↦ (on_missing, exclusive_phase now key shard)
]

unfoldable pub get : TimePoint → Bytes → Shard → Option Bytes × Shard
unfolding read_live
get now key = read_live now key (λ entry. some entry.value) none

unfoldable pub exists : TimePoint → Bytes → Shard → Bool × Shard
unfolding read_live
exists now key = read_live now key (λ _. true) false

-- TtlResult of include/kvstore/storage/types.hpp, with the seconds that go with `has_ttl`.
pub data TtlResult : Type 0 where
  missing : TtlResult
  no_ttl : TtlResult
  has_ttl : ℤ → TtlResult

unfoldable pub ttl_of : TimePoint → Option TimePoint → TtlResult
ttl_of now none = no_ttl
ttl_of now (some deadline) = has_ttl (remaining_seconds deadline now)

unfoldable pub ttl : TimePoint → Bytes → Shard → TtlResult × Shard
unfolding read_live ttl_of
ttl now key = read_live now key (λ entry. ttl_of now entry.deadline) TtlResult.missing

unfoldable pub del : TimePoint → Bytes → Shard → Bool × Shard
unfolding seen_entry
del now key shard = elim (seen_entry now (find key shard.entries)) [
  | missing ↦ (false, shard)
  | live _ ↦ (true, record shard { entries = erase key shard.entries })
  | expired ↦ (false, record shard { entries = erase key shard.entries })
]

-- What Store::expire does to a live entry.
unfoldable pub reschedule : TimePoint → Bytes → Entry → Shard → Shard
unfolding next
reschedule deadline key entry shard =
    let generation = next shard.next_generation in
    record {
      entries =
          insert key (record entry { deadline = some deadline; generation = generation })
            shard.entries;
      next_generation = generation;
      expiration_heap =
          push (record { deadline = deadline; generation = generation; key = key })
            shard.expiration_heap;
    }

unfoldable pub expire : TimePoint → Bytes → ℤ → Shard → Bool × Shard
unfolding seen_entry
expire now key seconds shard = elim (seen_entry now (find key shard.entries)) [
  | missing ↦ (false, shard)
  | expired ↦ (false, record shard { entries = erase key shard.entries })
  | live entry ↦ (true, reschedule (add_seconds now seconds) key entry shard)
]
