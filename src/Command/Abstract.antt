-- ===== src/Command/Abstract.antt =====
-- What the commands promise, over a map from keys to bindings: no shards, no generations, no heap,
-- no removal of what has expired. docs/PROTOCOL.md and SPEC.md, sections 3 and 4, describe it.
use mathlib.Core.Option
use cpp_kv_store.Base.{Bytes, Option, none, some, if◌then◌else◌, codes, bytes_eq}
use cpp_kv_store.Protocol.Command.{Command, CommandType}
use cpp_kv_store.Protocol.Serializer.{encode_simple_string}
use cpp_kv_store.Storage.Time.{TimePoint, add_seconds}
use cpp_kv_store.Storage.Shard.{TtlResult, ttl_of}
use cpp_kv_store.Storage.View.{Binding, AbstractStore, live_at, is_some}
use cpp_kv_store.Command.{encode_value, encode_bool, encode_ttl}

abbrev pub update : Bytes → Option Binding → AbstractStore → AbstractStore
update key b m k = if bytes_eq key k then b else m k

abbrev pub ttl_of_binding : TimePoint → Option Binding → TtlResult
ttl_of_binding now none = TtlResult.missing
ttl_of_binding now (some b) = ttl_of now b.deadline

abbrev pub with_deadline : TimePoint → Option Binding → Option Binding
with_deadline deadline = Option.map (λ (b : Binding). record b { deadline = some deadline })

-- The reply to a command at a time, and the map after it.
unfoldable pub abstract_type :
    CommandType → TimePoint → Command → AbstractStore → Bytes × AbstractStore
abstract_type CommandType.ping now c m = (encode_simple_string (codes "PONG"), m)
abstract_type CommandType.set now c m = (
  encode_simple_string (codes "OK"),
  update c.key (some (record { value = c.value; deadline = none })) m,
)
abstract_type CommandType.get now c m =
    (encode_value (Option.map (λ (b : Binding). b.value) (live_at now (m c.key))), m)
abstract_type CommandType.del now c m =
    (encode_bool (is_some (live_at now (m c.key))), update c.key none m)
abstract_type CommandType.exists now c m = (encode_bool (is_some (live_at now (m c.key))), m)
abstract_type CommandType.expire now c m = (
  encode_bool (is_some (live_at now (m c.key))),
  update c.key (with_deadline (add_seconds now c.seconds) (live_at now (m c.key))) m,
)
abstract_type CommandType.ttl now c m = (encode_ttl (ttl_of_binding now (live_at now (m c.key))), m)

unfoldable pub abstract_dispatch : TimePoint → Command → AbstractStore → Bytes × AbstractStore
abstract_dispatch now c m = abstract_type c.type now c m
