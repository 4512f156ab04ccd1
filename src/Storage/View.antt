-- ===== src/Storage/View.antt =====
-- What a client can see of a store: the live entry of a key at a time, without its generation and
-- without the expired entries that are still to be removed. The abstract store is a map that forgets
-- shards, generations and the heap, and never removes an entry because of its age.
use cpp_kv_store.Base.{
  ◌≤◌, Bytes, Bool, true, false, Option, none, some, if◌then◌else◌, ◌≡◌, refl, arith,
}
use mathlib.Core.Option
use cpp_kv_store.Base.Assoc.{bytes_instance, find}
use cpp_kv_store.Storage.Time.{TimePoint}
use cpp_kv_store.Storage.Shard.{Entry, Shard, has_passed}

pub record Binding : Type 0 where
  pub value : Bytes
  pub deadline : Option TimePoint

abbrev pub AbstractStore : Type 0
AbstractStore = Bytes → Option Binding

abbrev pub binding : Entry → Binding
binding entry = record { value = entry.value; deadline = entry.deadline }

-- The binding, if its deadline has not passed.
unfoldable pub live_at : TimePoint → Option Binding → Option Binding
unfolding has_passed
live_at now none = none
live_at now (some b) = if has_passed b.deadline now then none else some b

abbrev pub contents : Shard → AbstractStore
contents shard key = Option.map binding (find key shard.entries)

unfoldable pub shard_view : TimePoint → Shard → AbstractStore
unfolding live_at
shard_view now shard key = live_at now (contents shard key)

unfoldable pub is_some {ℓ} : {A : Type ℓ} → Option A → Bool
is_some none = false
is_some (some a) = true

-- What has expired stays expired.
pub live_at-later :
    (s t : TimePoint) (b : Option Binding) → s ≤ t → live_at s b ≡ none → live_at t b ≡ none
unfolding live_at
live_at-later s t none h e = refl
live_at-later s t (some b) h e = ground arith
