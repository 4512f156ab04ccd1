-- ===== src/Net/Io.antt =====
-- src/net/io.cpp and include/kvstore/net/io.hpp. The operating system's answers are arguments: what
-- ::recv and ::send return, with errno where they fail.
pub mod Transfer
use Prim.Native.Nat.{min}
use cpp_kv_store.Base.{
  ℕ, zero, suc, ◌*◌, Bytes, Bool, true, false, Option, none, some, List, [], ◌∷◌, length, ◌==◌,
  if◌then◌else◌,
}
use cpp_kv_store.Net.BoundedBuffer.{BoundedBuffer, remaining, append, consume}

-- errno; the numbers of the other errors are not told apart by the code.
pub data Errno : Type 0 where
  eagain eintr epipe econnreset : Errno
  other : ℕ → Errno

-- ::recv: the bytes that it has written, none of them at an orderly shutdown, or an error (-1).
pub data Received : Type 0 where
  bytes : Bytes → Received
  failed : Errno → Received

-- ::send: a number of bytes taken, or an error.
pub data Sent : Type 0 where
  taken : ℕ → Sent
  failed : Errno → Sent

pub data ReadStatus : Type 0 where
  read_some would_block closed buffer_full error : ReadStatus

pub data WriteStatus : Type 0 where
  wrote_some would_block closed error : WriteStatus

-- `none` is the error number 0.
pub record ReadOutcome : Type 0 where
  pub status : ReadStatus
  pub bytes_read : ℕ
  pub error_number : Option Errno

pub record WriteOutcome : Type 0 where
  pub status : WriteStatus
  pub bytes_written : ℕ
  pub error_number : Option Errno

-- An outcome in which nothing moved.
unfoldable pub no_read : ReadStatus → Option Errno → ReadOutcome
no_read status error_number = record {
  status = status;
  bytes_read = 0;
  error_number = error_number;
}

unfoldable pub no_write : WriteStatus → Option Errno → WriteOutcome
no_write status error_number = record {
  status = status;
  bytes_written = 0;
  error_number = error_number;
}

abbrev pub read_chunk_size : ℕ
read_chunk_size = 64 * 1024

unfoldable pub attempt : BoundedBuffer → ℕ
attempt buffer = min (remaining buffer) read_chunk_size

unfoldable pub after_recv : Received → BoundedBuffer → ReadOutcome × BoundedBuffer
unfolding no_read
after_recv (bytes []) buffer = (no_read ReadStatus.closed none, buffer)
after_recv (bytes (c ∷ chunk)) buffer = (
  record { status = ReadStatus.read_some; bytes_read = length (c ∷ chunk); error_number = none },
  (append (c ∷ chunk) buffer).1,
)
after_recv (Received.failed eagain) buffer = (no_read ReadStatus.would_block none, buffer)
after_recv (Received.failed eintr) buffer = (no_read ReadStatus.would_block none, buffer)
after_recv (Received.failed errno) buffer = (no_read ReadStatus.error (some errno), buffer)

-- `recv` answers a request for so many bytes.
unfoldable pub read_into : (ℕ → Received) → BoundedBuffer → ReadOutcome × BoundedBuffer
unfolding no_read
read_into recv buffer =
    if remaining buffer == 0
    then (no_read ReadStatus.buffer_full none, buffer)
    else after_recv (recv (attempt buffer)) buffer

unfoldable pub after_send : Sent → BoundedBuffer → WriteOutcome × BoundedBuffer
unfolding no_write
after_send (taken zero) buffer = (no_write WriteStatus.would_block none, buffer)
after_send (taken (suc n)) buffer = (
  record { status = WriteStatus.wrote_some; bytes_written = suc n; error_number = none },
  consume (suc n) buffer,
)
after_send (Sent.failed eagain) buffer = (no_write WriteStatus.would_block none, buffer)
after_send (Sent.failed eintr) buffer = (no_write WriteStatus.would_block none, buffer)
after_send (Sent.failed epipe) buffer = (no_write WriteStatus.closed (some epipe), buffer)
after_send (Sent.failed econnreset) buffer = (no_write WriteStatus.closed (some econnreset), buffer)
after_send (Sent.failed (other n)) buffer = (no_write WriteStatus.error (some (other n)), buffer)

-- `send` answers a request to send a text.
unfoldable pub write_from : (Bytes → Sent) → BoundedBuffer → WriteOutcome × BoundedBuffer
unfolding no_write
write_from send buffer =
    if length buffer.bytes == 0
    then (no_write WriteStatus.wrote_some none, buffer)
    else after_send (send buffer.bytes) buffer
