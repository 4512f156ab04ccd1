-- ===== src/Storage/Store/Views.antt =====
-- The operations on the whole store, as a client sees them: what holds of a key's shard holds of the
-- store, and every other shard stays as it was.
use native.Mathlib.Nat.{mod-lt, one-le-pow}
use cpp_kv_store.Base.{
  ℕ, ◌%◌, ◌^◌, ◌==◌, ◌<◌, Bytes, true, false, Option, none, if◌then◌else◌, bytes_eq, eq_of_bytes_eq,
  ◌≡◌, refl, ap, ◌∙◌, arith, inl, inr, Bool-cases, length, get_or, length-set, get_or-set,
  length-replicate, get_or-replicate,
}
use cpp_kv_store.Base.Mask.{bit_and-mask}
use cpp_kv_store.Base.Assoc.{bytes_instance, find}
use cpp_kv_store.Storage.Time.{TimePoint}
use cpp_kv_store.Storage.Shard.{Shard, empty_shard}
use cpp_kv_store.Storage.View.{Binding, AbstractStore, shard_view}
use cpp_kv_store.Storage.Store.{Store, shard_index, shard_for, on_shard, store_of}

-- The number of shards is a power of two, and they are all there.
pub record IsSharded (store : Store) : Type 0 where
  pub bits : ℕ
  pub power : store.shard_count ≡ 2 ^ bits
  pub all_there : length store.shards ≡ store.shard_count

module _ (hash : Bytes → ℕ) where
  -- In a store with a power of two of shards, the index that the mask gives is the remainder of the
  -- key's hash by the number of shards, and a shard stands there.
  pub shard_index-mod :
      (store : Store) (key : Bytes)
      → (w : IsSharded store)
      → (shard_index hash store key ≡ hash key % store.shard_count)
        × (shard_index hash store key < length store.shards)
  unfolding shard_index
  shard_index-mod store key w =
      rw (w.all_there, w.power)
        (
          bit_and-mask w.bits (hash key),
          omega (
            arith,
            bit_and-mask w.bits (hash key),
            mod-lt (hash key) (one-le-pow w.bits 2 (omega arith)),
          ),
        )

  -- What a client sees of a key.
  unfoldable pub view : TimePoint → Store → AbstractStore
  view now store key = shard_view now (shard_for hash store key) key

  pub on_shard-IsSharded :
      {A : Type 0} (operation : Shard → A × Shard) (key : Bytes) (store : Store)
      → IsSharded store
      → IsSharded (on_shard hash operation key store).1
  unfolding on_shard
  on_shard-IsSharded operation key store w = record {
    bits = w.bits;
    power = w.power;
    all_there = length-set store.shards _ _ ∙ w.all_there;
  }

  -- After an operation each key of the same shard is found in the new shard, and each other key where
  -- it was.
  pub shard_for-on_shard :
      {A : Type 0} (operation : Shard → A × Shard) (key : Bytes) (store : Store) (k : Bytes)
      → IsSharded store
      → shard_for hash (on_shard hash operation key store).1 k ≡ (
          if shard_index hash store key == shard_index hash store k
          then (operation (shard_for hash store key)).1
          else shard_for hash store k)
  unfolding shard_for on_shard shard_index
  shard_for-on_shard operation key store k w =
      let bound : shard_index hash store key < length store.shards =
        (shard_index-mod store key w).1 in
      get_or-set store.shards (shard_index hash store key) (shard_index hash store k)
        (operation (shard_for hash store key)).1 empty_shard bound

  shard_for-same :
      (store : Store) (key k : Bytes)
      → (shard_index hash store key == shard_index hash store k) ≡ true
      → shard_for hash store key ≡ shard_for hash store k
  unfolding shard_for
  shard_for-same store key k same = ap (λ i. get_or store.shards i empty_shard) (ground arith)

  shard_index-ne :
      (store : Store) (key k : Bytes)
      → (shard_index hash store key == shard_index hash store k) ≡ false
      → bytes_eq key k ≡ false
  shard_index-ne store key k other = elim (Bool-cases (bytes_eq key k)) [
    | inr e ↦ e
    | inl e ↦ let same = ap (shard_index hash store) (eq_of_bytes_eq key k e) in ground arith
  ]

  -- Lifting what an operation does to the view of its shard: `change` says what becomes of the view
  -- of the operation's own key, and the other keys keep theirs.
  pub view-on_shard :
      {A : Type 0} (operation : Shard → A × Shard) (key : Bytes) (store : Store) (t : TimePoint)
      (change : Option Binding) (k : Bytes)
      → IsSharded store
      → shard_view t (operation (shard_for hash store key)).1 k
        ≡ (if bytes_eq key k then change else shard_view t (shard_for hash store key) k)
      → view t (on_shard hash operation key store).1 k
        ≡ (if bytes_eq key k then change else view t store k)
  unfolding view
  view-on_shard operation key store t change k w law =
      rw (shard_for-on_shard operation key store k w)
        (elim (Bool-cases (shard_index hash store key == shard_index hash store k)) [
          | inl same ↦ rw same (
              law
              ∙ ap (λ (s : Shard). if bytes_eq key k then change else shard_view t s k)
                  (shard_for-same store key k same))
          | inr other ↦ rw (other, shard_index-ne store key k other)
        ])

  -- The same for an operation that no view shows.
  pub view-on_shard_same :
      {A : Type 0} (operation : Shard → A × Shard) (key : Bytes) (store : Store) (t : TimePoint)
      (k : Bytes)
      → IsSharded store
      → shard_view t (operation (shard_for hash store key)).1 k
        ≡ shard_view t (shard_for hash store key) k
      → view t (on_shard hash operation key store).1 k ≡ view t store k
  unfolding view
  view-on_shard_same operation key store t k w law =
      rw (shard_for-on_shard operation key store k w)
        (elim (Bool-cases (shard_index hash store key == shard_index hash store k)) [
          | inl same ↦
              rw same (law ∙ ap (λ (s : Shard). shard_view t s k) (shard_for-same store key k same))
          | inr other ↦ rw other
        ])

pub store_of-IsSharded : (bits : ℕ) → IsSharded (store_of (2 ^ bits))
unfolding store_of
store_of-IsSharded bits = record {
  bits = bits;
  power = refl;
  all_there = length-replicate (2 ^ bits) empty_shard;
}

-- A new store has no key.
pub view-store_of :
    (hash : Bytes → ℕ) (now : TimePoint) (count : ℕ) (key : Bytes)
    → view hash now (store_of count) key ≡ none
unfolding store_of shard_for view shard_view find
view-store_of hash now count key =
    rw (get_or-replicate count (shard_index hash (store_of count) key) empty_shard)
