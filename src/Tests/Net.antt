-- ===== src/Tests/Net.antt =====
-- The buffers, the response sequencer and the registry of connections.
use cpp_kv_store.Base.{ℕ, Bytes, none, List, [], ◌∷◌, ◌++◌, ◌≡◌, refl, arith, codes}
use cpp_kv_store.Base.Assoc.{nat_eq, find, erase, insert}
use cpp_kv_store.Net.BoundedBuffer.{BoundedBuffer, append, consume}
use cpp_kv_store.Net.BoundedBuffer.Stream
use cpp_kv_store.Net.BoundedBuffer.Stream.{Call, append_call, consume_call, run, run-stream}
use cpp_kv_store.Net.ResponseSequencer.{new_sequencer, emplace, advance, release, record_response}
use cpp_kv_store.Net.ResponseSequencer.Release.{between}
use cpp_kv_store.Net.ResponseSequencer.Order.{record_all, record_all-in_order}
use cpp_kv_store.Net.ConnectionRegistry.{
  Connection, ConnectionRegistry, new_registry, new_connection, connection_of, add, take_generation,
  emplace_at, find_connection, of_generation, close,
}
use cpp_kv_store.Net.BoundedBuffer.{new_buffer}
use cpp_kv_store.Net.ConnectionRegistry.Stale.{Operation, adding, closing, apply, apply_all}

abbrev eight : BoundedBuffer
eight = record { bytes = codes "abc"; capacity = 8 }

eight-IsValid : Stream.IsValid eight
eight-IsValid = record { bounded = omega arith; sized = omega arith }

abbrev calls : List Call
calls = append_call (codes "de") ∷ consume_call 4 ∷ append_call (codes "too long for it") ∷ []

run-stream_example :
    ((run calls eight).taken ++ (run calls eight).buffer.bytes
      ≡ eight.bytes ++ (run calls eight).accepted)
    × Stream.IsValid (run calls eight).buffer
run-stream_example = run-stream calls eight eight-IsValid

run_test : (run calls eight).buffer.bytes ≡ codes "e"
unfolding run append consume
run_test = refl

-- The response to a sequence number.
abbrev answer : ℕ → Bytes
answer k = k ∷ []

abbrev order : List ℕ
order = 2 ∷ 0 ∷ 1 ∷ []

record_test : (record_all answer order new_sequencer).0 ≡ (0 ∷ []) ∷ (1 ∷ []) ∷ (2 ∷ []) ∷ []
unfolding record_all record_response release advance emplace find insert erase
record_test = refl

record_all-in_order_example : (record_all answer order new_sequencer).0 ≡ between answer 0 3
record_all-in_order_example = record_all-in_order answer 3 order (omega arith) (λ k. ground arith)

-- A client at descriptor 5 that closes, and another that gets its descriptor.
abbrev first_client : ConnectionRegistry
first_client = (add 5 (codes "first") 10 10 new_registry).1

abbrev reuse : List Operation
reuse = closing 5 1 ∷ adding 5 (codes "second") 10 10 ∷ []

stale_test : find_connection 5 1 (apply_all reuse first_client) ≡ none
unfolding apply_all apply add take_generation emplace_at new_connection connection_of new_buffer
    find_connection of_generation close find insert erase
stale_test = refl

abbrev third : List Operation
third = adding 6 (codes "third") 10 10 ∷ []

abbrev first_connection : Connection
first_connection = record {
  id = 5;
  generation = 1;
  peer_address = codes "first";
  input = record { bytes = []; capacity = 10 };
  output = record { bytes = []; capacity = 10 };
  sequencer = new_sequencer;
}
