-- ===== src/Tests/Io.antt =====
-- Reads and writes of sockets.
use cpp_kv_store.Base.{ℕ, none, ◌++◌, ◌≡◌, refl, length, take, arith, codes}
use cpp_kv_store.Net.BoundedBuffer.{BoundedBuffer, remaining, append, consume}
use cpp_kv_store.Net.BoundedBuffer.Stream.{IsValid}
use cpp_kv_store.Net.Io.{
  Received, bytes, taken, ReadStatus, WriteStatus, attempt, after_recv, read_into, after_send,
  write_from, no_read, no_write,
}
use cpp_kv_store.Net.Io.Transfer.{IsAtMost-take, received, read_into_lem}

abbrev small : BoundedBuffer
small = record { bytes = codes "abc"; capacity = 5 }

small-IsValid : IsValid small
small-IsValid = record { bounded = omega arith; sized = omega arith }

-- A peer that has sent four bytes.
abbrev peer : ℕ → Received
peer n = bytes (take n (codes "defg"))

read_into_test : read_into peer small ≡ (
  record { status = ReadStatus.read_some; bytes_read = 2; error_number = none },
  record { bytes = codes "abcde"; capacity = 5 },
)
unfolding read_into after_recv attempt remaining append no_read
read_into_test = refl

write_from_test : write_from (λ s. taken 2) small ≡ (
  record { status = WriteStatus.wrote_some; bytes_written = 2; error_number = none },
  record { bytes = codes "c"; capacity = 5 },
)
unfolding write_from after_send consume no_write
write_from_test = refl

read_into_lem_example :
    ((read_into peer small).1.bytes ≡ codes "abc" ++ received peer small)
    × ((read_into peer small).0.bytes_read ≡ length (received peer small))
    × IsValid (read_into peer small).1
read_into_lem_example = read_into_lem peer small small-IsValid λ n. IsAtMost-take n (codes "defg")
