-- ===== src/Command.antt =====
-- The dispatcher: src/command/dispatcher.cpp.
pub mod Abstract
pub mod Refinement
pub mod History
use cpp_kv_store.Base.{Bytes, Bool, true, false, Option, none, some, if◌then◌else◌, codes, ℕ}
use cpp_kv_store.Base.Int.{ℤ, pos, negsuc}
use cpp_kv_store.Protocol.Command.{Command, CommandType}
use cpp_kv_store.Protocol.Serializer.{
  encode_simple_string, encode_integer, encode_bulk_string, encode_null_bulk_string,
}
use cpp_kv_store.Storage.Time.{TimePoint}
use cpp_kv_store.Storage.Shard.{TtlResult, missing, no_ttl, has_ttl}
use cpp_kv_store.Storage.Store
use cpp_kv_store.Storage.Store.{Store}

-- The reply to what Store::get returned.
unfoldable pub encode_value : Option Bytes → Bytes
encode_value none = encode_null_bulk_string
encode_value (some value) = encode_bulk_string value

unfoldable pub encode_bool : Bool → Bytes
encode_bool b = encode_integer (if b then pos 1 else pos 0)

unfoldable pub encode_ttl : TtlResult → Bytes
encode_ttl TtlResult.missing = encode_integer (negsuc 1)
encode_ttl no_ttl = encode_integer (negsuc 0)
encode_ttl (has_ttl remaining) = encode_integer remaining

module _ (hash : Bytes → ℕ) (now : TimePoint) (store : Store) where
  unfoldable pub dispatch_set : Command → Bytes × Store
  dispatch_set c = (encode_simple_string (codes "OK"), Store.set hash c.key c.value store)

  unfoldable pub dispatch_get : Command → Bytes × Store
  dispatch_get c =
      let (value, store') = Store.get hash now c.key store in (encode_value value, store')

  unfoldable pub dispatch_del : Command → Bytes × Store
  dispatch_del c =
      let (removed, store') = Store.del hash now c.key store in (encode_bool removed, store')

  unfoldable pub dispatch_exists : Command → Bytes × Store
  dispatch_exists c =
      let (exists, store') = Store.exists hash now c.key store in (encode_bool exists, store')

  unfoldable pub dispatch_expire : Command → Bytes × Store
  dispatch_expire c =
      let (set_ok, store') = Store.expire hash now c.key c.seconds store in
      (encode_bool set_ok, store')

  unfoldable pub dispatch_ttl : Command → Bytes × Store
  dispatch_ttl c =
      let (result, store') = Store.ttl hash now c.key store in (encode_ttl result, store')

  unfoldable pub dispatch_type : CommandType → Command → Bytes × Store
  dispatch_type CommandType.ping c = (encode_simple_string (codes "PONG"), store)
  dispatch_type CommandType.set c = dispatch_set c
  dispatch_type CommandType.get c = dispatch_get c
  dispatch_type CommandType.del c = dispatch_del c
  dispatch_type CommandType.exists c = dispatch_exists c
  dispatch_type CommandType.expire c = dispatch_expire c
  dispatch_type CommandType.ttl c = dispatch_ttl c

  unfoldable pub dispatch : Command → Bytes × Store
  dispatch c = dispatch_type c.type c
