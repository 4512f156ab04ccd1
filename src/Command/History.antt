-- ===== src/Command/History.antt =====
-- Histories: the critical sections of the worker threads and of the sweeper, in the order in which
-- they get the shard locks. A read may be interrupted between its shared and its exclusive section.
use Prim.Native.Nat.{max}
use mathlib.Core.Path.{ap₂}
use cpp_kv_store.Base
use cpp_kv_store.Base.{
  ℕ, ◌≤◌, ◌<◌, ◌^◌, ◌==◌, Bytes, Bool, true, false, Option, none, some, List, [], ◌∷◌, ◌++◌, get_or,
  length, ◌≡◌, refl, ◌∙◌, arith, get_or-set_keeps, length-set,
}
use cpp_kv_store.Protocol.Command.{Command, CommandType}
use cpp_kv_store.Storage.Time.{TimePoint}
use cpp_kv_store.Storage.Shard.{Shard, empty_shard, exclusive_phase}
use cpp_kv_store.Storage.Shard.Views.{shard_view-exclusive_phase}
use cpp_kv_store.Storage.View.{AbstractStore, live_at, shard_view}
use cpp_kv_store.Storage.Store.{Store, shard_for, shard_index, on_shard, store_of}
use cpp_kv_store.Storage.Store.Views.{
  view, on_shard-IsSharded, view-on_shard_same, store_of-IsSharded, view-store_of,
}
use cpp_kv_store.Storage.Store.Sweep.{sweep_shard}
use cpp_kv_store.Storage.Store.Sweep.Views.{shard_view-sweep_shard}
use cpp_kv_store.Command.{dispatch}
use cpp_kv_store.Command.Abstract.{abstract_dispatch}
use cpp_kv_store.Command.Refinement.{Shows, dispatch-Refines}

-- `execute` is a command whose critical sections follow one another; `look` is the shared section of
-- a GET, EXISTS or TTL, `clean` the exclusive section of one that looked at that time, and `sweep`
-- the sweeper's section on the shard of an index.
pub data Event : Type 0 where
  execute : TimePoint → Command → Event
  look : TimePoint → Command → Event
  clean : TimePoint → Bytes → Event
  sweep : TimePoint → ℕ → ℕ → Event

abbrev pub IsRead : CommandType → Type 0
IsRead CommandType.get = Unit {0}
IsRead CommandType.exists = Unit {0}
IsRead CommandType.ttl = Unit {0}
IsRead _ = ⊥

-- Commands carry times that do not fall from one to the next; cleanups and sweeps may carry any time
-- that is not ahead of the commands that follow.
abbrev pub IsTimed : TimePoint → List Event → Type 0
IsTimed now [] = Unit {0}
IsTimed now (execute t c ∷ events) = (now ≤ t) × IsTimed t events
IsTimed now (look t c ∷ events) = (now ≤ t) × IsRead c.type × IsTimed t events
IsTimed now (clean t key ∷ events) = IsTimed (max now t) events
IsTimed now (sweep t max_items i ∷ events) = IsTimed (max now t) events

-- The sweeper's section on one shard.
unfoldable pub sweep_at : ℕ → TimePoint → ℕ → Store → Store
sweep_at max_items now i store = record store {
  shards =
      Base.set store.shards i (sweep_shard max_items now (get_or store.shards i empty_shard)).1;
}

module _ (hash : Bytes → ℕ) where
  -- The replies of a history on the sharded store.
  unfoldable pub replies : List Event → Store → List Bytes
  replies [] store = []
  replies (execute now c ∷ events) store =
      let (reply, store') = dispatch hash now store c in reply ∷ replies events store'
  replies (look now c ∷ events) store = (dispatch hash now store c).0 ∷ replies events store
  replies (clean now key ∷ events) store =
      replies events (on_shard hash (λ shard. (tt, exclusive_phase now key shard)) key store).1
  replies (sweep now max_items i ∷ events) store = replies events (sweep_at max_items now i store)

-- The replies that the abstract map gives: it knows nothing of cleanups and sweeps.
unfoldable pub promised : List Event → AbstractStore → List Bytes
promised [] m = []
promised (execute now c ∷ events) m =
    let (reply, m') = abstract_dispatch now c m in reply ∷ promised events m'
promised (look now c ∷ events) m = (abstract_dispatch now c m).0 ∷ promised events m
promised (clean now key ∷ events) m = promised events m
promised (sweep now max_items i ∷ events) m = promised events m

module _ (hash : Bytes → ℕ) where
  Shows-later :
      (now t : TimePoint) (store : Store) (m : AbstractStore)
      → now ≤ t
      → Shows hash now store m
      → Shows hash t store m
  Shows-later now t store m h s = record {
    sharded = s.sharded;
    views = λ u k later. s.views u k (omega arith);
  }

  Shows-clean :
      (now t : TimePoint) (key : Bytes) (store : Store) (m : AbstractStore)
      → t ≤ now
      → Shows hash now store m
      → Shows hash now (on_shard hash (λ shard. (tt, exclusive_phase t key shard)) key store).1 m
  Shows-clean now t key store m h s = record {
    sharded = on_shard-IsSharded hash _ key store s.sharded;
    views = λ u k later.
        view-on_shard_same hash _ key store u k s.sharded
          (shard_view-exclusive_phase t u (omega arith) key (shard_for hash store key) k)
        ∙ s.views u k later;
  }

  view-sweep_at :
      (max_items : ℕ) (now t : TimePoint) (i : ℕ) (store : Store) (k : Bytes)
      → now ≤ t
      → view hash t (sweep_at max_items now i store) k ≡ view hash t store k
  unfolding view shard_for shard_index sweep_at
  view-sweep_at max_items now t i store k later =
      get_or-set_keeps (λ (shard : Shard). shard_view t shard k)
        (λ shard. (sweep_shard max_items now shard).1) empty_shard
        (λ shard. shard_view-sweep_shard max_items now t shard k later) store.shards i
        (shard_index hash store k)

  Shows-sweep_at :
      (now t : TimePoint) (max_items i : ℕ) (store : Store) (m : AbstractStore)
      → t ≤ now
      → Shows hash now store m
      → Shows hash now (sweep_at max_items t i store) m
  Shows-sweep_at now t max_items i store m h s = record {
    sharded = record {
      bits = s.sharded.bits;
      power = unfold sweep_at in s.sharded.power;
      all_there = unfold sweep_at in (length-set store.shards i _ ∙ s.sharded.all_there);
    };
    views = λ u k later. view-sweep_at max_items t u i store k (omega arith) ∙ s.views u k later;
  }

  replies-promised :
      (events : List Event) (now : TimePoint) (store : Store) (m : AbstractStore)
      → IsTimed now events
      → Shows hash now store m
      → replies hash events store ≡ promised events m
  unfolding replies promised
  replies-promised [] now store m h s = refl
  replies-promised (execute t c ∷ events) now store m h s =
      let r = dispatch-Refines hash t store m (Shows-later now t store m h.0 s) c in
      ap₂ ◌∷◌ r.reply (
        replies-promised events t (dispatch hash t store c).1 (abstract_dispatch t c m).1 h.1
          r.shows)
  replies-promised (look t c ∷ events) now store m h s =
      let s' = Shows-later now t store m h.0 s in
      ap₂ ◌∷◌ (dispatch-Refines hash t store m s' c).reply
        (replies-promised events t store m h.2 s')
  replies-promised (clean t key ∷ events) now store m h s =
      replies-promised events (max now t) _ m h (
        Shows-clean (max now t) t key store m (omega arith)
          (Shows-later now (max now t) store m (omega arith) s))
  replies-promised (sweep t max_items i ∷ events) now store m h s =
      replies-promised events (max now t) _ m h (
        Shows-sweep_at (max now t) t max_items i store m (omega arith)
          (Shows-later now (max now t) store m (omega arith) s))

  pub new-Shows : (bits : ℕ) (now : TimePoint) → Shows hash now (store_of (2 ^ bits)) (λ _. none)
  unfolding live_at
  new-Shows bits now = record {
    sharded = store_of-IsSharded bits;
    views = λ t k later. view-store_of hash t (2 ^ bits) k;
  }

-- From a new store with a power of two of shards, whatever the hash: in any timed history, with the
-- exclusive sections of the reads and the sweeps at any place and with any budget, every command has
-- the reply that the abstract map gives it.
pub history-promised :
    (hash : Bytes → ℕ) (bits : ℕ) (now : TimePoint) (events : List Event)
    → IsTimed now events
    → replies hash events (store_of (2 ^ bits)) ≡ promised events (λ _. none)
history-promised hash bits now events timed =
    replies-promised hash events now (store_of (2 ^ bits)) (λ _. none) timed
      (new-Shows hash bits now)
