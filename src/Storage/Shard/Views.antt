-- ===== src/Storage/Shard/Views.antt =====
-- The operations of src/storage/store.cpp on one shard, as a client sees them.
use cpp_kv_store.Base.{
  ◌≤◌, Bytes, none, some, if◌then◌else◌, bytes_eq, bytes_eq_iff, ◌≡◌, arith, inl, inr, Option-cases,
}
use mathlib.Core.Option
use cpp_kv_store.Base.Assoc.{bytes_instance, find, find-erase, find-insert}
use cpp_kv_store.Base.Int.{ℤ}
use cpp_kv_store.Storage.Time.{TimePoint, add_seconds}
use cpp_kv_store.Storage.Shard.{
  Entry, Shard, TtlResult, set, exclusive_phase, get, exists, ttl, ttl_of, del, expire, reschedule,
}
use cpp_kv_store.Storage.View.{Binding, live_at, shard_view, is_some}

pub shard_view-set :
    (t : TimePoint) (key value : Bytes) (shard : Shard) (k : Bytes)
    → shard_view t (set key value shard) k ≡ (
        if bytes_eq key k
        then some (record { value = value; deadline = none })
        else shard_view t shard k)
unfolding shard_view set
shard_view-set t key value shard k = simp find-insert (ground arith)

shard_view-reschedule :
    (t deadline : TimePoint) (key : Bytes) (entry : Entry) (shard : Shard) (k : Bytes)
    → shard_view t (reschedule deadline key entry shard) k ≡ (
        if bytes_eq key k
        then live_at t (some (record { value = entry.value; deadline = some deadline }))
        else shard_view t shard k)
unfolding shard_view reschedule
shard_view-reschedule t deadline key entry shard k = simp find-insert (ground arith)

module _ (now t : TimePoint) (later : now ≤ t) (key : Bytes) (shard : Shard) where
  -- The cleanup of a read, whatever has become of the shard since the read looked at its key, hides
  -- nothing that can be seen at the read's time or later.
  pub shard_view-exclusive_phase :
      (k : Bytes) → shard_view t (exclusive_phase now key shard) k ≡ shard_view t shard k
  unfolding shard_view exclusive_phase
  shard_view-exclusive_phase k = ground (arith, find-erase key k shard.entries, bytes_eq_iff key k)

  pub shard_view-get : (k : Bytes) → shard_view t (get now key shard).1 k ≡ shard_view t shard k
  unfolding shard_view get
  shard_view-get k = ground (arith, find-erase key k shard.entries, bytes_eq_iff key k)

  pub shard_view-exists :
      (k : Bytes) → shard_view t (exists now key shard).1 k ≡ shard_view t shard k
  unfolding shard_view exists
  shard_view-exists k = ground (arith, find-erase key k shard.entries, bytes_eq_iff key k)

  pub shard_view-ttl : (k : Bytes) → shard_view t (ttl now key shard).1 k ≡ shard_view t shard k
  unfolding shard_view ttl
  shard_view-ttl k = ground (arith, find-erase key k shard.entries, bytes_eq_iff key k)

  pub shard_view-del :
      (k : Bytes)
      → shard_view t (del now key shard).1 k
        ≡ (if bytes_eq key k then none else shard_view t shard k)
  unfolding shard_view del
  shard_view-del k = ground (arith, find-erase key k shard.entries, bytes_eq_iff key k)

  -- What EXPIRE leaves at its key, from what was live there.
  pub shard_view-expire :
      (seconds : ℤ) (k : Bytes)
      → shard_view t (expire now key seconds shard).1 k ≡ (
          if bytes_eq key k
          then live_at t (
              Option.map
                (λ (b : Binding). record b { deadline = some (add_seconds now seconds) })
                (shard_view now shard key))
          else shard_view t shard k)
  unfolding shard_view expire
  shard_view-expire seconds k = elim (Option-cases (find key shard.entries)) [
    | inl e ↦ ground (arith, bytes_eq_iff key k)
    | inr (entry, e) ↦ ground (
      arith,
      find-erase key k shard.entries,
      shard_view-reschedule t (add_seconds now seconds) key entry shard k,
      bytes_eq_iff key k,
    )
  ]

module _ (now : TimePoint) (key : Bytes) (shard : Shard) where
  -- What each operation returns is a function of the live binding of its key.
  pub get-result :
      (get now key shard).0 ≡ Option.map (λ (b : Binding). b.value) (shard_view now shard key)
  unfolding shard_view get
  get-result = ground arith

  pub exists-result : (exists now key shard).0 ≡ is_some (shard_view now shard key)
  unfolding shard_view exists is_some
  exists-result = ground arith

  pub del-result : (del now key shard).0 ≡ is_some (shard_view now shard key)
  unfolding shard_view del is_some
  del-result = ground arith

  pub expire-result :
      (seconds : ℤ) → (expire now key seconds shard).0 ≡ is_some (shard_view now shard key)
  unfolding shard_view expire is_some
  expire-result seconds = ground arith

  pub ttl-result : (ttl now key shard).0 ≡ elim (shard_view now shard key) [
    | none ↦ TtlResult.missing
    | some b ↦ ttl_of now b.deadline
  ]
  unfolding shard_view ttl ttl_of
  ttl-result = ground arith
