-- ===== src/Net/BoundedBuffer/Stream.antt =====
-- src/net/bounded_buffer.cpp over any sequence of calls.
use cpp_kv_store.Base.{
  ℕ, ◌+◌, ◌≤◌, ◌<◌, Bytes, List, [], ◌∷◌, ◌++◌, length, take, ltb, leb, if◌then◌else◌, ◌≡◌, refl,
  sym, ap, ◌∙◌, arith, length-append, length-drop, append-nil, append_assoc, take-drop, take_all,
  Bool-cases, inl, inr,
}
use cpp_kv_store.Storage.Time.{word}
use cpp_kv_store.Net.BoundedBuffer.{BoundedBuffer, remaining, append, consume}

-- The buffer is within its capacity, which std::size_t holds.
pub record IsValid (buffer : BoundedBuffer) : Type 0 where
  pub bounded : length buffer.bytes ≤ buffer.capacity
  pub sized : buffer.capacity < word

pub data Call : Type 0 where
  append_call : Bytes → Call
  consume_call : ℕ → Call

-- The bytes that were accepted, the bytes that were taken off, and the buffer that is left.
pub record Run : Type 0 where
  pub accepted : Bytes
  pub taken : Bytes
  pub buffer : BoundedBuffer

unfoldable pub run : List Call → BoundedBuffer → Run
run [] buffer = record { accepted = []; taken = []; buffer = buffer }
run (append_call added ∷ calls) buffer =
    let (ok, buffer') = append added buffer in
    let rest = run calls buffer' in
    record rest { accepted = (if ok then added else []) ++ rest.accepted }
run (consume_call count ∷ calls) buffer =
    let rest = run calls (consume count buffer) in
    record rest { taken = take count buffer.bytes ++ rest.taken }

-- In a valid buffer an append is accepted exactly when the data fits.
pub append_fits :
    (added : Bytes) (buffer : BoundedBuffer)
    → IsValid buffer
    → (append added buffer).0 ≡ leb (length buffer.bytes + length added) buffer.capacity
unfolding append
append_fits added buffer v = let b = v.bounded in let s = v.sized in ground arith

pub append-IsValid :
    (added : Bytes) (buffer : BoundedBuffer) → IsValid buffer → IsValid (append added buffer).1
append-IsValid added buffer v = record {
  bounded =
      unfold append in
      (let b = v.bounded in let s = v.sized in ground (arith, length-append buffer.bytes added));
  sized = unfold append in (let s = v.sized in ground arith);
}

pub consume-IsValid :
    (count : ℕ) (buffer : BoundedBuffer) → IsValid buffer → IsValid (consume count buffer)
consume-IsValid count buffer v = record {
  bounded = unfold consume in (let b = v.bounded in ground (arith, length-drop count buffer.bytes));
  sized = unfold consume in (let s = v.sized in ground arith);
}

-- What a call leaves, with what it added or took.
pub append_bytes :
    (added : Bytes) (buffer : BoundedBuffer)
    → (append added buffer).1.bytes
      ≡ buffer.bytes ++ (if (append added buffer).0 then added else [])
unfolding append
append_bytes added buffer = elim (Bool-cases (ltb (remaining buffer) (length added))) [
  | inl e ↦ rw e (sym (append-nil buffer.bytes))
  | inr e ↦ rw e refl
]

pub consume_bytes :
    (count : ℕ) (buffer : BoundedBuffer)
    → take count buffer.bytes ++ (consume count buffer).bytes ≡ buffer.bytes
unfolding consume
consume_bytes count buffer = elim (Bool-cases (leb (length buffer.bytes) count)) [
  | inl e ↦ rw e (append-nil (take count buffer.bytes) ∙ take_all count buffer.bytes (ground arith))
  | inr e ↦ rw e (take-drop count buffer.bytes)
]

-- Over any calls on a buffer within its capacity, which std::size_t holds, the bytes taken off and
-- then those that are left are the bytes that were there and then those accepted; the buffer stays
-- within its capacity.
pub run-stream :
    (calls : List Call) (buffer : BoundedBuffer)
    → IsValid buffer
    → ((run calls buffer).taken ++ (run calls buffer).buffer.bytes
        ≡ buffer.bytes ++ (run calls buffer).accepted)
      × IsValid (run calls buffer).buffer
unfolding run
run-stream [] buffer v = (sym (append-nil buffer.bytes), v)
run-stream (append_call added ∷ calls) buffer v =
    let rest = run-stream calls (append added buffer).1 (append-IsValid added buffer v) in
    (
      rest.0
          ∙ ap (λ b. b ++ (run calls (append added buffer).1).accepted) (append_bytes added buffer)
          ∙ append_assoc buffer.bytes _ _,
      rest.1,
    )
run-stream (consume_call count ∷ calls) buffer v =
    let rest = run-stream calls (consume count buffer) (consume-IsValid count buffer v) in
    (
      append_assoc (take count buffer.bytes) _ _
          ∙ ap (λ b. take count buffer.bytes ++ b) rest.0
          ∙ sym (append_assoc (take count buffer.bytes) _ _)
          ∙ ap (λ b. b ++ (run calls (consume count buffer)).accepted) (consume_bytes count buffer),
      rest.1,
    )
