-- ===== src/Net/ConnectionRegistry/Stale.antt =====
-- What the generations of src/net/connection_registry.cpp are for: a descriptor's number is reused.
use cpp_kv_store.Base.{ℕ, Bytes, Option, none, some, List, [], ◌∷◌, ◌≡◌, refl, arith}
use cpp_kv_store.Base.Assoc.{nat_eq, erase, find-erase, find-insert}
use cpp_kv_store.Net.BoundedBuffer.{BoundedBuffer, new_buffer}
use cpp_kv_store.Net.ConnectionRegistry.{
  Connection, ConnectionRegistry, new_connection, connection_of, take_generation, emplace_at, add,
  of_generation, find_connection, close,
}

-- What the event loop does to the registry.
pub data Operation : Type 0 where
  adding : ℕ → Bytes → ℕ → ℕ → Operation
  closing : ℕ → ℕ → Operation

unfoldable pub apply : Operation → ConnectionRegistry → ConnectionRegistry
apply (adding fd peer_address max_input_bytes max_output_bytes) registry =
    (add fd peer_address max_input_bytes max_output_bytes registry).1
apply (closing id generation) registry = (close id generation registry).1

unfoldable pub apply_all : List Operation → ConnectionRegistry → ConnectionRegistry
apply_all [] registry = registry
apply_all (operation ∷ operations) registry = apply_all operations (apply operation registry)

connection_of_generation :
    (id generation : ℕ) (peer : Bytes) (input output : Option BoundedBuffer) (c : Connection)
    → connection_of id generation peer input output ≡ some c
    → c.generation ≡ generation
unfolding connection_of
connection_of_generation id generation peer (some input) (some output) c h = cc
connection_of_generation id generation peer (some input) none c h = cc
connection_of_generation id generation peer none output c h = cc

find-emplaced :
    (fd g : ℕ) (made : Option Connection) (registry : ConnectionRegistry)
    → ((d : Connection) → made ≡ some d → d.generation ≡ g)
    → find_connection fd g (emplace_at fd made (take_generation fd registry).1) ≡ made
unfolding emplace_at take_generation find_connection of_generation
find-emplaced fd g none registry given =
    let at = find-erase fd fd registry.connections in grind (arith, at)
find-emplaced fd g (some d) registry given =
    let same = given d refl in
    let at = find-insert fd fd d (erase fd registry.connections) in grind (arith, at, same)

-- A new connection is found under its descriptor and the generation that it was given.
pub find_connection-add :
    (fd : ℕ) (peer : Bytes) (m n : ℕ) (registry : ConnectionRegistry)
    → find_connection fd registry.next_generation (add fd peer m n registry).1
      ≡ (add fd peer m n registry).0
unfolding add
find_connection-add fd peer m n registry =
    unfold take_generation in
    find-emplaced fd registry.next_generation (new_connection fd registry.next_generation peer m n)
      registry
      (λ d made.
        connection_of_generation fd registry.next_generation peer (new_buffer m) (new_buffer n) d
          (unfold new_connection in made))
