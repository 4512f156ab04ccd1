-- ===== src/Net/BoundedBuffer.antt =====
-- src/net/bounded_buffer.cpp and include/kvstore/net/bounded_buffer.hpp.
pub mod Stream
use cpp_kv_store.Base.{
  ℕ, ◌+◌, ◌-◌, ◌%◌, Bytes, Bool, true, false, Option, none, some, [], ◌++◌, length, drop, ltb, leb,
  ◌==◌, if◌then◌else◌,
}
use cpp_kv_store.Storage.Time.{word}

pub record BoundedBuffer : Type 0 where
  pub bytes : Bytes
  pub capacity : ℕ

-- The constructor; `none` is the std::invalid_argument.
unfoldable pub new_buffer : ℕ → Option BoundedBuffer
new_buffer capacity =
    if capacity == 0 then none else some (record { bytes = []; capacity = capacity })

-- capacity_ - data_.size(), in std::size_t
unfoldable pub remaining : BoundedBuffer → ℕ
remaining buffer = (buffer.capacity + word - length buffer.bytes) % word

unfoldable pub append : Bytes → BoundedBuffer → Bool × BoundedBuffer
unfolding remaining
append added buffer =
    if ltb (remaining buffer) (length added)
    then (false, buffer)
    else (true, record buffer { bytes = buffer.bytes ++ added })

unfoldable pub consume : ℕ → BoundedBuffer → BoundedBuffer
consume count buffer =
    if leb (length buffer.bytes) count
    then record buffer { bytes = [] }
    else record buffer { bytes = drop count buffer.bytes }
