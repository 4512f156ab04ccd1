-- ===== src/Storage/Store.antt =====
-- `Store` of include/kvstore/storage/store.hpp and src/storage/store.cpp: its shards, the choice of
-- a key's shard, and its operations. std::hash is the parameter `hash` of what chooses a shard, and
-- `now` is what the clock returned to the operation.
pub mod Sweep
pub mod Views
pub mod ShardCount
use Prim.Native.Nat.{bit_and}
use cpp_kv_store.Base.{
  ℕ, zero, suc, ◌+◌, ◌-◌, ◌*◌, ◌%◌, Bytes, Bool, true, false, Option, none, some, ltb, leb, ◌==◌,
  if◌then◌else◌, get_or, replicate, List,
}
use cpp_kv_store.Base
use cpp_kv_store.Base.Int.{ℤ}
use cpp_kv_store.Storage.Time.{TimePoint}
use cpp_kv_store.Storage.Shard
use cpp_kv_store.Storage.Shard.{Shard, TtlResult, empty_shard}

-- std::bit_ceil: the least power of two from `power` on that is not below `n`. The fuel is the
-- number of bits of std::size_t; past it std::bit_ceil is undefined.
unfoldable pub bit_ceil_from : ℕ → ℕ → ℕ → ℕ
bit_ceil_from zero power n = power
bit_ceil_from (suc bits) power n = elim (leb n power) [
  | true ↦ power
  | false ↦ bit_ceil_from bits (2 * power) n
]

-- `none` is the std::invalid_argument that is thrown for zero.
unfoldable pub normalize_shard_count : ℕ → Option ℕ
unfolding bit_ceil_from
normalize_shard_count requested =
    if requested == 0 then none else some (bit_ceil_from 64 1 requested)

pub record Store : Type 0 where
  pub shard_count : ℕ
  pub shards : List Shard
  pub active_expirations : ℕ

-- The store of a number of shards that is a power of two.
unfoldable pub store_of : ℕ → Store
store_of count = record {
  shard_count = count;
  shards = replicate count empty_shard;
  active_expirations = 0;
}

-- The constructor, with whether so many shards can be allocated; `none` is an exception.
unfoldable pub new_store : (ℕ → Bool) → ℕ → Option Store
unfolding normalize_shard_count
new_store allocates requested = elim (normalize_shard_count requested) [
  | none ↦ none
  | some count ↦ if allocates count then some (store_of count) else none
]

module _ (hash : Bytes → ℕ) where
  -- The index that `shard_for` computes: hash & (shard_count - 1).
  unfoldable pub shard_index : Store → Bytes → ℕ
  shard_index store key = bit_and (hash key) (store.shard_count - 1)

  unfoldable pub shard_for : Store → Bytes → Shard
  shard_for store key = get_or store.shards (shard_index store key) empty_shard

  -- An operation on the key's shard, which is written back.
  unfoldable pub on_shard : {A : Type 0} → (Shard → A × Shard) → Bytes → Store → A × Store
  on_shard operation key store =
      let (result, shard) = operation (shard_for store key) in
      (result, record store { shards = Base.set store.shards (shard_index store key) shard })

  unfoldable pub set : Bytes → Bytes → Store → Store
  set key value store = (on_shard (λ shard. (tt, Shard.set key value shard)) key store).1

  unfoldable pub get : TimePoint → Bytes → Store → Option Bytes × Store
  get now key = on_shard (Shard.get now key) key

  unfoldable pub exists : TimePoint → Bytes → Store → Bool × Store
  exists now key = on_shard (Shard.exists now key) key

  unfoldable pub ttl : TimePoint → Bytes → Store → TtlResult × Store
  ttl now key = on_shard (Shard.ttl now key) key

  unfoldable pub del : TimePoint → Bytes → Store → Bool × Store
  del now key = on_shard (Shard.del now key) key

  unfoldable pub expire : TimePoint → Bytes → ℤ → Store → Bool × Store
  expire now key seconds = on_shard (Shard.expire now key seconds) key
