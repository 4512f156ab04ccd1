-- ===== src/Storage/Store/ShardCount.antt =====
-- `normalize_shard_count` of src/storage/store.cpp and std::bit_ceil.
use native.Mathlib.Nat.{pow-suc}
use cpp_kv_store.Base.{
  ℕ, zero, suc, ◌*◌, ◌^◌, ◌≤◌, ◌<◌, true, false, none, some, leb, ◌==◌, ◌≡◌, refl, arith, inl, inr,
  Bool-cases, ◌⊎◌, ap,
}
use cpp_kv_store.Storage.Store.{bit_ceil_from, normalize_shard_count}

bit_ceil_from_stops :
    (bits power n : ℕ) → leb n power ≡ true → bit_ceil_from (suc bits) power n ≡ power
unfolding bit_ceil_from
bit_ceil_from_stops bits power n e = rw (e, bit_ceil_from)

bit_ceil_from_doubles :
    (bits power n : ℕ)
    → leb n power ≡ false
    → bit_ceil_from (suc bits) power n ≡ bit_ceil_from bits (2 * power) n
unfolding bit_ceil_from
bit_ceil_from_doubles bits power n e = rw (e, bit_ceil_from)

-- The power of two is not below the request, and the one before it is.
abbrev pub RoundsUp : ℕ → ℕ → Type 0
RoundsUp n count = (bits : ℕ) × (count ≡ 2 ^ bits) × (n ≤ count) × ((count ≡ 1) ⊎ (count < 2 * n))

bit_ceil_from-RoundsUp :
    (bits k power n : ℕ)
    → power ≡ 2 ^ k
    → n ≤ power * 2 ^ bits
    → (power ≡ 1) ⊎ (power < 2 * n)
    → RoundsUp n (bit_ceil_from bits power n)
bit_ceil_from-RoundsUp zero k power n e fits low = unfold bit_ceil_from in (k, e, omega arith, low)
bit_ceil_from-RoundsUp (suc bits) k power n e fits low = elim (Bool-cases (leb n power)) [
  | inl enough ↦ rw (bit_ceil_from_stops bits power n enough) (k, e, ground arith, low)
  | inr short ↦ rw (bit_ceil_from_doubles bits power n short) (
      bit_ceil_from-RoundsUp bits (suc k) (2 * power) n (omega (arith, e, pow-suc 2 k))
        (omega (arith, fits, ap (λ (t : ℕ). power * t) (pow-suc 2 bits))) (ground arith))
]

-- Of the requests up to 2 ^ 63, that of no shard is refused, and every other is rounded up to a power
-- of two that is less than twice the request, or one.
pub normalize_shard_count-RoundsUp :
    (requested : ℕ)
    → requested ≤ 2 ^ 63
    → ((requested ≡ 0) × (normalize_shard_count requested ≡ none))
      ⊎ ((0 < requested)
          × ((count : ℕ) × (normalize_shard_count requested ≡ some count)
              × RoundsUp requested count))
unfolding normalize_shard_count
normalize_shard_count-RoundsUp requested fits = elim (Bool-cases (requested == 0)) [
  | inl e ↦ inl (ground arith, rw e)
  | inr e ↦ inr (
    ground arith,
    (
      bit_ceil_from 64 1 requested,
      rw e,
      bit_ceil_from-RoundsUp 64 0 1 requested refl (omega arith) (inl refl),
    ),
  )
]
