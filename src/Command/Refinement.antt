-- ===== src/Command/Refinement.antt =====
-- The dispatcher of src/command/dispatcher.cpp against the commands on the abstract map.
use mathlib.Core.Option
use cpp_kv_store.Base.{
  ℕ, ◌≤◌, Bytes, Option, none, some, if◌then◌else◌, bytes_eq, ◌≡◌, refl, ◌∙◌, ap, arith, inl, inr,
  Bool-cases,
}
use cpp_kv_store.Protocol.Command.{Command, CommandType}
use cpp_kv_store.Storage.Time.{TimePoint, add_seconds}
use cpp_kv_store.Storage.Shard
use cpp_kv_store.Storage.Shard.{Shard, TtlResult, ttl_of}
use cpp_kv_store.Storage.Shard.Views
use cpp_kv_store.Storage.View.{Binding, AbstractStore, live_at, shard_view, is_some}
use cpp_kv_store.Storage.Store
use cpp_kv_store.Storage.Store.{Store, shard_for, on_shard}
use cpp_kv_store.Storage.Store.Views.{
  IsSharded, view, on_shard-IsSharded, view-on_shard, view-on_shard_same,
}
use cpp_kv_store.Command.{
  encode_value, encode_bool, encode_ttl, dispatch_type, dispatch_set, dispatch_get, dispatch_del,
  dispatch_exists, dispatch_expire, dispatch_ttl, dispatch,
}
use cpp_kv_store.Command.Abstract.{
  update, ttl_of_binding, with_deadline, abstract_type, abstract_dispatch,
}

-- From `now` on the store shows the live bindings of the map.
pub record Shows (hash : Bytes → ℕ) (now : TimePoint) (store : Store) (m : AbstractStore)
    : Type 0 where
  pub sharded : IsSharded store
  pub views : (t : TimePoint) (k : Bytes) → now ≤ t → view hash t store k ≡ live_at t (m k)

-- An operation refines an abstract one: the same reply, and the store goes on showing the map.
pub record Refines (hash : Bytes → ℕ) (now : TimePoint) (got : Bytes × Store)
    (promised : Bytes × AbstractStore) : Type 0 where
  pub reply : got.0 ≡ promised.0
  pub shows : Shows hash now got.1 promised.1

module _ (hash : Bytes → ℕ) (now : TimePoint) (store : Store) (m : AbstractStore)
    (s : Shows hash now store m) where
  found : (c : Command) → shard_view now (shard_for hash store c.key) c.key ≡ live_at now (m c.key)
  unfolding view
  found c = s.views now c.key (omega arith)

  on_shard-result :
      {A : Type 0} (operation : Shard → A × Shard) (key : Bytes)
      → (on_shard hash operation key store).0 ≡ (operation (shard_for hash store key)).0
  unfolding on_shard
  on_shard-result operation key = refl

  -- An operation on a shard that no view shows.
  Shows-on_shard_same :
      {A : Type 0} (operation : Shard → A × Shard) (key : Bytes)
      → ((t : TimePoint) (k : Bytes)
          → now ≤ t
          → shard_view t (operation (shard_for hash store key)).1 k
            ≡ shard_view t (shard_for hash store key) k)
      → Shows hash now (on_shard hash operation key store).1 m
  Shows-on_shard_same operation key law = record {
    sharded = on_shard-IsSharded hash operation key store s.sharded;
    views = λ t k later.
        view-on_shard_same hash operation key store t k s.sharded (law t k later)
        ∙ s.views t k later;
  }

  live_at-update :
      (t : TimePoint) (key k : Bytes) (b : Option Binding)
      → now ≤ t
      → (if bytes_eq key k then live_at t b else view hash t store k) ≡ live_at t (update key b m k)
  live_at-update t key k b later = elim (Bool-cases (bytes_eq key k)) [
    | inl e ↦ rw e
    | inr e ↦ rw e (s.views t k later)
  ]

  -- An operation on a shard that gives its key the binding `b`.
  Shows-on_shard :
      {A : Type 0} (operation : Shard → A × Shard) (key : Bytes) (b : Option Binding)
      → ((t : TimePoint) (k : Bytes)
          → now ≤ t
          → shard_view t (operation (shard_for hash store key)).1 k
            ≡ (if bytes_eq key k then live_at t b else shard_view t (shard_for hash store key) k))
      → Shows hash now (on_shard hash operation key store).1 (update key b m)
  Shows-on_shard operation key b law = record {
    sharded = on_shard-IsSharded hash operation key store s.sharded;
    views = λ t k later.
        view-on_shard hash operation key store t (live_at t b) k s.sharded (law t k later)
        ∙ live_at-update t key k b later;
  }

  get-Refines :
      (c : Command)
      → Refines hash now (dispatch_get hash now store c) (abstract_type CommandType.get now c m)
  unfolding dispatch_get abstract_type Store.get
  get-Refines c = record {
    reply = ap encode_value (
        on_shard-result (Shard.get now c.key) c.key
        ∙ (Views.get-result now c.key (shard_for hash store c.key)
            ∙ ap (Option.map (λ (b : Binding). b.value)) (found c)));
    shows =
        Shows-on_shard_same (Shard.get now c.key) c.key
          (λ t k later. Views.shard_view-get now t later c.key (shard_for hash store c.key) k);
  }

  exists-Refines :
      (c : Command)
      → Refines hash now
          (dispatch_exists hash now store c)
          (abstract_type CommandType.exists now c m)
  unfolding dispatch_exists abstract_type Store.exists
  exists-Refines c = record {
    reply = ap encode_bool (
        on_shard-result (Shard.exists now c.key) c.key
        ∙ (Views.exists-result now c.key (shard_for hash store c.key) ∙ ap is_some (found c)));
    shows =
        Shows-on_shard_same (Shard.exists now c.key) c.key
          (λ t k later. Views.shard_view-exists now t later c.key (shard_for hash store c.key) k);
  }

  ttl-Refines :
      (c : Command)
      → Refines hash now (dispatch_ttl hash now store c) (abstract_type CommandType.ttl now c m)
  unfolding dispatch_ttl abstract_type Store.ttl
  ttl-Refines c = record {
    reply = ap encode_ttl (
        on_shard-result (Shard.ttl now c.key) c.key
        ∙ (Views.ttl-result now c.key (shard_for hash store c.key)
            ∙ ap (ttl_of_binding now) (found c)));
    shows =
        Shows-on_shard_same (Shard.ttl now c.key) c.key
          (λ t k later. Views.shard_view-ttl now t later c.key (shard_for hash store c.key) k);
  }

  del-Refines :
      (c : Command)
      → Refines hash now (dispatch_del hash now store c) (abstract_type CommandType.del now c m)
  unfolding dispatch_del abstract_type Store.del live_at
  del-Refines c = record {
    reply = ap encode_bool (
        on_shard-result (Shard.del now c.key) c.key
        ∙ (Views.del-result now c.key (shard_for hash store c.key) ∙ ap is_some (found c)));
    shows =
        Shows-on_shard (Shard.del now c.key) c.key none
          (λ t k later. Views.shard_view-del now t later c.key (shard_for hash store c.key) k);
  }

  expire-Refines :
      (c : Command)
      → Refines hash now
          (dispatch_expire hash now store c)
          (abstract_type CommandType.expire now c m)
  unfolding dispatch_expire abstract_type Store.expire
  expire-Refines c = record {
    reply = ap encode_bool (
        on_shard-result (Shard.expire now c.key c.seconds) c.key
        ∙ (Views.expire-result now c.key (shard_for hash store c.key) c.seconds
            ∙ ap is_some (found c)));
    shows =
        Shows-on_shard (Shard.expire now c.key c.seconds) c.key
          (with_deadline (add_seconds now c.seconds) (live_at now (m c.key)))
          (λ t k later.
            rw (← found c)
              (Views.shard_view-expire now t later c.key (shard_for hash store c.key) c.seconds k));
  }

  set-Refines :
      (c : Command)
      → Refines hash now (dispatch_set hash now store c) (abstract_type CommandType.set now c m)
  unfolding dispatch_set abstract_type Store.set live_at
  set-Refines c = record {
    reply = refl;
    shows =
        Shows-on_shard (λ shard. (tt, Shard.set c.key c.value shard)) c.key
          (some (record { value = c.value; deadline = none }))
          (λ t k later. Views.shard_view-set t c.key c.value (shard_for hash store c.key) k);
  }

  ping-Refines :
      (c : Command)
      → Refines hash now
          (dispatch_type hash now store CommandType.ping c)
          (abstract_type CommandType.ping now c m)
  unfolding dispatch_type abstract_type
  ping-Refines c = record { reply = refl; shows = s }

  dispatch_type-Refines :
      (type : CommandType) (c : Command)
      → Refines hash now (dispatch_type hash now store type c) (abstract_type type now c m)
  unfolding dispatch_type
  dispatch_type-Refines CommandType.ping c = ping-Refines c
  dispatch_type-Refines CommandType.set c = set-Refines c
  dispatch_type-Refines CommandType.get c = get-Refines c
  dispatch_type-Refines CommandType.del c = del-Refines c
  dispatch_type-Refines CommandType.exists c = exists-Refines c
  dispatch_type-Refines CommandType.expire c = expire-Refines c
  dispatch_type-Refines CommandType.ttl c = ttl-Refines c

  -- If from now on a store shows the live bindings of a map, every command has, now, the reply that
  -- the map gives it, and from then on the store shows the map that the command leaves.
  pub dispatch-Refines :
      (c : Command) → Refines hash now (dispatch hash now store c) (abstract_dispatch now c m)
  unfolding dispatch abstract_dispatch
  dispatch-Refines c = dispatch_type-Refines c.type c
