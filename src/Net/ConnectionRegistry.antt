-- ===== src/Net/ConnectionRegistry.antt =====
-- src/net/connection_registry.cpp, with `Connection` of include/kvstore/net/connection.hpp. A file
-- descriptor is its number.
pub mod Stale
use cpp_kv_store.Base.{
  ℕ, ◌+◌, ◌*◌, ◌%◌, Bytes, Bool, true, false, Option, none, some, [], ◌==◌, if◌then◌else◌,
}
use cpp_kv_store.Base.Assoc.{Assoc, nat_eq, find, erase, insert}
use cpp_kv_store.Storage.Time.{word}
use cpp_kv_store.Net.BoundedBuffer.{BoundedBuffer, new_buffer}
use cpp_kv_store.Net.ResponseSequencer.{ResponseSequencer, new_sequencer}

abbrev pub default_max_input_buffer_bytes : ℕ
default_max_input_buffer_bytes = 2 * 1024 * 1024

abbrev pub default_max_output_buffer_bytes : ℕ
default_max_output_buffer_bytes = 2 * 1024 * 1024

pub record Connection : Type 0 where
  pub id : ℕ
  pub generation : ℕ
  pub peer_address : Bytes
  pub input : BoundedBuffer
  pub output : BoundedBuffer
  pub sequencer : ResponseSequencer

pub record ConnectionRegistry : Type 0 where
  pub next_generation : ℕ
  pub connections : Assoc ℕ Connection

abbrev pub new_registry : ConnectionRegistry
new_registry = record { next_generation = 1; connections = [] }

unfoldable pub connection_of :
    ℕ → ℕ → Bytes → Option BoundedBuffer → Option BoundedBuffer → Option Connection
connection_of id generation peer_address (some input) (some output) = some (record {
  id = id;
  generation = generation;
  peer_address = peer_address;
  input = input;
  output = output;
  sequencer = new_sequencer;
})
connection_of id generation peer_address _ _ = none

-- The constructor of Connection; `none` where a buffer's constructor throws.
unfoldable pub new_connection : ℕ → ℕ → Bytes → ℕ → ℕ → Option Connection
unfolding connection_of
new_connection id generation peer_address max_input_bytes max_output_bytes =
    connection_of id generation peer_address (new_buffer max_input_bytes)
      (new_buffer max_output_bytes)

-- What of `add` stands before the connection is constructed: the generation that it takes, and the
-- registry without an entry at the descriptor.
unfoldable pub take_generation : ℕ → ConnectionRegistry → ℕ × ConnectionRegistry
take_generation id registry = (
  registry.next_generation,
  record {
    next_generation = (registry.next_generation + 1) % word;
    connections = erase id registry.connections;
  },
)

unfoldable pub emplace_at : ℕ → Option Connection → ConnectionRegistry → ConnectionRegistry
emplace_at id none registry = registry
emplace_at id (some connection) registry = record registry {
  connections = insert id connection registry.connections;
}

-- `add`: the new connection, or `none` where its constructor throws.
unfoldable pub add : ℕ → Bytes → ℕ → ℕ → ConnectionRegistry → Option Connection × ConnectionRegistry
add fd peer_address max_input_bytes max_output_bytes registry =
    let (generation, registry') = take_generation fd registry in
    let connection = new_connection fd generation peer_address max_input_bytes max_output_bytes in
    (connection, emplace_at fd connection registry')

-- it == connections_.end() || it->second.generation() != generation
unfoldable pub of_generation : ℕ → Option Connection → Option Connection
of_generation generation none = none
of_generation generation (some connection) =
    if connection.generation == generation then some connection else none

unfoldable pub find_connection : ℕ → ℕ → ConnectionRegistry → Option Connection
find_connection id generation registry = of_generation generation (find id registry.connections)

unfoldable pub find_current : ℕ → ConnectionRegistry → Option Connection
find_current id registry = find id registry.connections

unfoldable pub close : ℕ → ℕ → ConnectionRegistry → Bool × ConnectionRegistry
close id generation registry = elim (find_connection id generation registry) [
  | none ↦ (false, registry)
  | some _ ↦ (true, record registry { connections = erase id registry.connections })
]
