-- ===== src/Storage/Shard/Expiry.antt =====
-- Store::expire, Store::get and Store::ttl of src/storage/store.cpp, over time.
use cpp_kv_store.Base.{
  ℕ, ◌+◌, ◌-◌, ◌*◌, ◌/◌, ◌%◌, ◌^◌, ◌≤◌, ◌<◌, Bytes, true, none, some, ltb, if◌then◌else◌,
  bytes_eq_refl, ◌≡◌, ◌∙◌, arith,
}
use cpp_kv_store.Base.Int.{pos}
use cpp_kv_store.Storage.Time.{
  TimePoint, word, nanos_per_second, add_seconds, add_seconds-exact, remaining_seconds-exact,
}
use cpp_kv_store.Storage.Shard.{Shard, has_ttl, get, ttl, ttl_of, expire}
use cpp_kv_store.Storage.Shard.Views.{shard_view-expire, get-result, ttl-result, expire-result}
use cpp_kv_store.Storage.View.{Binding, live_at, shard_view, is_some}

module _ (now n : ℕ) (key : Bytes) (shard : Shard) (b : Binding)
    (seen : shard_view now shard key ≡ some b) where
  -- What EXPIRE leaves at its key, at a later time.
  view_after :
      (t : TimePoint)
      → now ≤ t
      → shard_view t (expire now key (pos n) shard).1 key
        ≡ live_at t (some (record { value = b.value; deadline = some (add_seconds now (pos n)) }))
  view_after t later =
      shard_view-expire now t later key shard (pos n) key ∙ rw (bytes_eq_refl key, seen)

  -- If now plus n seconds is a time that the clock can count, EXPIRE of a live key with n seconds
  -- returns true; from then on GET returns the key's value before that time, and nothing from it on.
  pub expire_lifetime :
      (t : TimePoint)
      → now ≤ t
      → now + n * nanos_per_second < word
      → ((expire now key (pos n) shard).0 ≡ true)
        × ((get t key (expire now key (pos n) shard).1).0
            ≡ (if ltb t (now + n * nanos_per_second) then some b.value else none))
  unfolding live_at
  expire_lifetime t later counts = (
    expire-result now key shard (pos n) ∙ (unfold is_some in rw seen),
    get-result t key (expire now key (pos n) shard).1
        ∙ rw (view_after t later, add_seconds-exact now n counts) (ground arith),
  )

  -- If now plus n seconds is a time that the clock can count, after EXPIRE of a live key with n
  -- seconds TTL returns, before that time and less than 2 ^ 63 nanoseconds ahead of
  -- it, the seconds that are left, rounded down.
  pub ttl_after_expire :
      (t : TimePoint)
      → now ≤ t
      → t < now + n * nanos_per_second
      → now + n * nanos_per_second < word
      → now + n * nanos_per_second - t < 2 ^ 63
      → (ttl t key (expire now key (pos n) shard).1).0
        ≡ has_ttl (pos ((now + n * nanos_per_second - t) / nanos_per_second))
  unfolding live_at ttl_of
  ttl_after_expire t later before counts near =
      ttl-result t key (expire now key (pos n) shard).1
      ∙ rw (view_after t later, add_seconds-exact now n counts)
          (ground (arith, remaining_seconds-exact (now + n * nanos_per_second) t))

  -- If now plus n seconds overflows the clock to a time that is not ahead of now, EXPIRE of a live
  -- key still returns true, but the key is gone at once.
  pub expire_overflow :
      (now + n * nanos_per_second) % word ≤ now
      → ((expire now key (pos n) shard).0 ≡ true)
        × ((get now key (expire now key (pos n) shard).1).0 ≡ none)
  unfolding live_at add_seconds
  expire_overflow wrapped = (
    expire-result now key shard (pos n) ∙ (unfold is_some in rw seen),
    get-result now key (expire now key (pos n) shard).1
        ∙ rw (view_after now (omega arith)) (ground arith),
  )
