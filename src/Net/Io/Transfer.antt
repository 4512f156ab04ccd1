-- ===== src/Net/Io/Transfer.antt =====
-- What src/net/io.cpp moves between the buffers and the sockets.
use cpp_kv_store.Base.{
  ℕ, zero, suc, ◌-◌, ◌≤◌, ◌==◌, Bytes, true, false, [], ◌∷◌, ◌++◌, length, take, if◌then◌else◌, ◌≡◌,
  refl, sym, ◌∙◌, append-nil, arith, Bool-cases, inl, inr,
}
use cpp_kv_store.Net.BoundedBuffer.{BoundedBuffer, remaining, append}
use cpp_kv_store.Net.BoundedBuffer.Stream.{
  IsValid, append_fits, append-IsValid, consume-IsValid, consume_bytes, append_bytes,
}
use cpp_kv_store.Net.Io.{
  Received, bytes, Sent, taken, eagain, eintr, epipe, econnreset, other, attempt, after_recv,
  read_into, after_send, write_from, no_read, no_write,
}

-- What ::recv promises: not more bytes than were asked for.
abbrev pub IsAtMost : ℕ → Received → Type 0
IsAtMost n (bytes chunk) = length chunk ≤ n
IsAtMost n (Received.failed e) = Unit {0}

abbrev pub chunk_of : Received → Bytes
chunk_of (bytes chunk) = chunk
chunk_of (Received.failed e) = []

remaining_lem : (b : BoundedBuffer) → IsValid b → remaining b ≡ b.capacity - length b.bytes
unfolding remaining
remaining_lem b v = let s = v.sized in let f = v.bounded in omega arith

-- What an outcome of a read says of the bytes that were received.
after_recv_lem :
    (r : Received) (b : BoundedBuffer)
    → IsValid b
    → IsAtMost (attempt b) r
    → ((after_recv r b).1.bytes ≡ b.bytes ++ chunk_of r)
      × ((after_recv r b).0.bytes_read ≡ length (chunk_of r))
      × IsValid (after_recv r b).1
unfolding after_recv attempt no_read
after_recv_lem (bytes []) b v h = (sym (append-nil b.bytes), refl, v)
after_recv_lem (bytes (c ∷ chunk)) b v h =
    let room = remaining_lem b v in
    let fits = append_fits (c ∷ chunk) b v in
    let inside = v.bounded in
    let accepted : (append (c ∷ chunk) b).0 ≡ true = ground arith in
    (append_bytes (c ∷ chunk) b ∙ (rw accepted refl), refl, append-IsValid (c ∷ chunk) b v)
after_recv_lem (Received.failed eagain) b v h = (sym (append-nil b.bytes), refl, v)
after_recv_lem (Received.failed eintr) b v h = (sym (append-nil b.bytes), refl, v)
after_recv_lem (Received.failed epipe) b v h = (sym (append-nil b.bytes), refl, v)
after_recv_lem (Received.failed econnreset) b v h = (sym (append-nil b.bytes), refl, v)
after_recv_lem (Received.failed (other n)) b v h = (sym (append-nil b.bytes), refl, v)

-- What a read of a buffer receives: nothing if it is full.
abbrev pub received : (ℕ → Received) → BoundedBuffer → Bytes
received recv b = if length b.bytes == b.capacity then [] else chunk_of (recv (attempt b))

-- If ::recv never returns more than was asked for, a read adds to a valid buffer exactly the bytes
-- that ::recv returned, none if the buffer was full, and reports their number; the buffer stays valid.
pub read_into_lem :
    (recv : ℕ → Received) (b : BoundedBuffer)
    → IsValid b
    → ((n : ℕ) → IsAtMost n (recv n))
    → ((read_into recv b).1.bytes ≡ b.bytes ++ received recv b)
      × ((read_into recv b).0.bytes_read ≡ length (received recv b))
      × IsValid (read_into recv b).1
unfolding read_into no_read
read_into_lem recv b v honest =
    let room = remaining_lem b v in
    let fits = v.bounded in
    elim (Bool-cases (remaining b == 0)) [
      | inl e ↦
          let full : (length b.bytes == b.capacity) ≡ true = ground arith in
          rw (e, full) (sym (append-nil b.bytes), refl, v)
      | inr e ↦
          let free : (length b.bytes == b.capacity) ≡ false = ground arith in
          rw (e, free) (after_recv_lem (recv (attempt b)) b v (honest (attempt b)))
    ]

abbrev pub count_of : Sent → ℕ
count_of (taken n) = n
count_of _ = 0

-- What a write of a buffer sends: nothing if it is empty.
abbrev pub sent : (Bytes → Sent) → BoundedBuffer → ℕ
sent send b = if length b.bytes == 0 then 0 else count_of (send b.bytes)

after_send_lem :
    (r : Sent) (b : BoundedBuffer)
    → IsValid b
    → (take (count_of r) b.bytes ++ (after_send r b).1.bytes ≡ b.bytes)
      × ((after_send r b).0.bytes_written ≡ count_of r)
      × IsValid (after_send r b).1
unfolding after_send no_write
after_send_lem (taken zero) b v = (refl, refl, v)
after_send_lem (taken (suc n)) b v = (consume_bytes (suc n) b, refl, consume-IsValid (suc n) b v)
after_send_lem (Sent.failed eagain) b v = (refl, refl, v)
after_send_lem (Sent.failed eintr) b v = (refl, refl, v)
after_send_lem (Sent.failed epipe) b v = (refl, refl, v)
after_send_lem (Sent.failed econnreset) b v = (refl, refl, v)
after_send_lem (Sent.failed (other n)) b v = (refl, refl, v)

-- A write sends the first bytes of a valid buffer, as many as ::send took, and leaves exactly the
-- others; it reports their number, and the buffer stays valid.
pub write_from_lem :
    (send : Bytes → Sent) (b : BoundedBuffer)
    → IsValid b
    → (take (sent send b) b.bytes ++ (write_from send b).1.bytes ≡ b.bytes)
      × ((write_from send b).0.bytes_written ≡ sent send b)
      × IsValid (write_from send b).1
unfolding write_from no_write
write_from_lem send b v = elim (Bool-cases (length b.bytes == 0)) [
  | inl e ↦ rw e (refl, refl, v)
  | inr e ↦ rw e (after_send_lem (send b.bytes) b v)
]

-- A peer that hands out the first bytes of what it has sent is honest about the count.
pub IsAtMost-take : (n : ℕ) (s : Bytes) → IsAtMost n (bytes (take n s))
IsAtMost-take zero s = omega arith
IsAtMost-take (suc n) [] = omega arith
IsAtMost-take (suc n) (c ∷ s) = omega (arith, IsAtMost-take n s)
