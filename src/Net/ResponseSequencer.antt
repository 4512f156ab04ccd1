-- ===== src/Net/ResponseSequencer.antt =====
-- src/net/response_sequencer.cpp and include/kvstore/net/response_sequencer.hpp.
pub mod Release
pub mod Order
pub mod Accounts
use cpp_kv_store.Base.{
  ℕ, zero, suc, ◌+◌, ◌-◌, ◌%◌, Bytes, Option, none, some, List, [], ◌∷◌, length,
}
use cpp_kv_store.Base.Assoc.{Assoc, nat_eq, find, erase, insert}
use cpp_kv_store.Storage.Time.{word}

pub record ResponseSequencer : Type 0 where
  pub next_request_sequence : ℕ
  pub next_expected : ℕ
  pub pending : Assoc ℕ Bytes

abbrev pub new_sequencer : ResponseSequencer
new_sequencer = record { next_request_sequence = 0; next_expected = 0; pending = [] }

-- return next_request_sequence_++
unfoldable pub take_request_sequence : ResponseSequencer → ℕ × ResponseSequencer
take_request_sequence s = (
  s.next_request_sequence,
  record s { next_request_sequence = (s.next_request_sequence + 1) % word },
)

-- next_request_sequence_ - next_expected_, in uint64_t
unfoldable pub in_flight_count : ResponseSequencer → ℕ
in_flight_count s = (s.next_request_sequence + word - s.next_expected) % word

-- pending_.emplace, which keeps what is there
unfoldable pub emplace : ℕ → Bytes → Assoc ℕ Bytes → Assoc ℕ Bytes
emplace sequence response pending = elim (find sequence pending) [
  | none ↦ insert sequence response pending
  | some _ ↦ pending
]

-- The state after one round of the loop of `record`.
unfoldable pub advance : ResponseSequencer → ResponseSequencer
advance s = record s {
  pending = erase s.next_expected s.pending;
  next_expected = (s.next_expected + 1) % word;
}

-- The loop of `record`. Each round erases a response, so that fuel for each of them is enough.
unfoldable pub release : ℕ → ResponseSequencer → List Bytes × ResponseSequencer
release zero s = ([], s)
release (suc fuel) s = elim (find s.next_expected s.pending) [
  | none ↦ ([], s)
  | some response ↦ let (ready, s') = release fuel (advance s) in (response ∷ ready, s')
]

-- `record`
unfoldable pub record_response : ℕ → Bytes → ResponseSequencer → List Bytes × ResponseSequencer
record_response sequence response s =
    let pending = emplace sequence response s.pending in
    release (length pending) (record s { pending = pending })
