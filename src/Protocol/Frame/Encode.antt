-- ===== src/Protocol/Frame/Encode.antt =====
-- `encode_command` of benchmarks/client/kv_bench.cpp, the client's side of the framing, and what the
-- server's phase 1 makes of it.
use native.Mathlib.Nat.{add-zero}
use cpp_kv_store.Base.{
  ℕ, zero, suc, ◌+◌, ◌≤◌, Bytes, List, [], ◌∷◌, ◌++◌, none, some, ◌≡◌, refl, arith, length, drop,
  get_or, ap, ◌∙◌, append-nil, append_assoc, ltb-false_of_le, length-append, take-length-append,
  drop-length-append, get_or-length_append,
}
use cpp_kv_store.Protocol.Command.{complete, protocol_error}
use cpp_kv_store.Protocol.Integer.{int64_max, parse_nonnegative_integer, to_string}
use cpp_kv_store.Protocol.Integer.RoundTrip.{
  AllDigits, to_string-AllDigits, length-to_string-le, parse-to_string,
}
use cpp_kv_store.Protocol.Line.{find_crlf, read_line}
use cpp_kv_store.Protocol.Serializer.{crlf}
use cpp_kv_store.Protocol.Frame.{
  max_array_elements, max_bulk_string_length, max_header_line_length, read_length, read_body,
  read_bulk, read_bulks, read_multibulk_frame, bulk_too_long, bulk_invalid, array_too_long,
  array_invalid, malformed,
}
use cpp_kv_store.Protocol.Frame.Bounds.{AllBounded}

unfoldable pub encode_part : Bytes → Bytes
encode_part part = b'$' ∷ (to_string (length part) ++ (crlf ++ (part ++ crlf)))

-- The loop over the parts.
unfoldable pub encode_parts : List Bytes → Bytes
encode_parts [] = []
encode_parts (part ∷ parts) = encode_part part ++ encode_parts parts

unfoldable pub encode_command : List Bytes → Bytes
encode_command parts = b'*' ∷ (to_string (length parts) ++ (crlf ++ encode_parts parts))

pub find_crlf-digits :
    (s rest : Bytes) → AllDigits s → find_crlf (s ++ (crlf ++ rest)) ≡ some (length s)
unfolding find_crlf
find_crlf-digits [] rest h = refl
find_crlf-digits (c ∷ []) rest h = ground arith
find_crlf-digits (c ∷ d ∷ s) rest h = ground (arith, find_crlf-digits (d ∷ s) rest)

find_crlf-no_lf : (s : Bytes) → AllDigits s → find_crlf (s ++ 13 ∷ []) ≡ none
unfolding find_crlf
find_crlf-no_lf [] h = refl
find_crlf-no_lf (c ∷ []) h = ground arith
find_crlf-no_lf (c ∷ d ∷ s) h = ground (arith, find_crlf-no_lf (d ∷ s))

read_length-digits :
    (long invalid s rest : Bytes) (n : ℕ)
    → AllDigits s
    → length s ≤ max_header_line_length
    → parse_nonnegative_integer s ≡ some n
    → read_length long invalid (s ++ (crlf ++ rest)) ≡ complete (n, length s + 2)
unfolding read_length read_line
read_length-digits long invalid s rest n digits short parsed =
    rw (find_crlf-digits s rest digits) (ground (arith, take-length-append s (crlf ++ rest)))

read_length-to_string :
    (long invalid rest : Bytes) (n : ℕ)
    → n ≤ int64_max
    → read_length long invalid (to_string n ++ (crlf ++ rest))
      ≡ complete (n, length (to_string n) + 2)
read_length-to_string long invalid rest n fits =
    read_length-digits long invalid (to_string n) rest n (to_string-AllDigits n)
      (omega (arith, length-to_string-le n 18 (omega arith))) (parse-to_string n fits)

-- Past the digits of a header and its line break.
drop-header : (s rest : Bytes) (k : ℕ) → k ≡ length s + 2 → drop k (s ++ (crlf ++ rest)) ≡ rest
drop-header [] rest k e = rw e
drop-header (c ∷ s) rest zero e = absurd (omega arith)
drop-header (c ∷ s) rest (suc k) e = drop-header s rest k (omega arith)

read_body-encoded :
    (body rest : Bytes)
    → length body ≤ max_bulk_string_length
    → read_body (length body) (body ++ (crlf ++ rest)) ≡ complete body
unfolding read_body
read_body-encoded body rest fits = rw (take-length-append body (crlf ++ rest)) (
    ground (
      arith,
      length-append body (crlf ++ rest),
      get_or-length_append body (crlf ++ rest) 1 0,
      get_or-length_append body (crlf ++ rest) 0 0,
      ap (λ n. get_or (body ++ (crlf ++ rest)) n 0) (add-zero (length body)),
    ))

encode_part-append :
    (part rest : Bytes)
    → encode_part part ++ rest
      ≡ b'$' ∷ (to_string (length part) ++ (crlf ++ (part ++ (crlf ++ rest))))
unfolding encode_part
encode_part-append part rest = simp append_assoc

length-encode_part :
    (part : Bytes)
    → length (encode_part part) ≡ 1 + (length (to_string (length part)) + 2) + (length part + 2)
unfolding encode_part
length-encode_part part = omega (
  arith,
  length-append (to_string (length part)) (crlf ++ (part ++ crlf)),
  length-append part crlf,
)

read_bulk-encoded :
    (part rest : Bytes)
    → length part ≤ max_bulk_string_length
    → read_bulk (encode_part part ++ rest) ≡ complete (part, length (encode_part part))
unfolding read_bulk
read_bulk-encoded part rest fits =
    let body = part ++ (crlf ++ rest) in
    rw (encode_part-append part rest, length-encode_part part)
      (rw (read_length-to_string bulk_too_long bulk_invalid body (length part) (omega arith)) (
        rw (
          drop-header (to_string (length part)) body (length (to_string (length part)) + 2) refl,
          read_body-encoded part rest fits,
        )))

read_bulks-encoded :
    (parts : List Bytes) (rest : Bytes) (consumed : ℕ) (args : List Bytes)
    → AllBounded parts
    → read_bulks (length parts) (encode_parts parts ++ rest) consumed args
      ≡ complete
          (record { args = args ++ parts; consumed_bytes = consumed + length (encode_parts parts) })
unfolding read_bulks encode_parts
read_bulks-encoded [] rest consumed args h = rw append-nil (ground (arith, add-zero consumed))
read_bulks-encoded (part ∷ parts) rest consumed args h =
    let tail = encode_parts parts ++ rest in
    rw (append_assoc (encode_part part) (encode_parts parts) rest, read_bulk-encoded part tail h.0)
      (rw (drop-length-append (encode_part part) tail) (
        read_bulks-encoded parts rest (consumed + length (encode_part part)) (args ++ part ∷ []) h.1
        ∙ ground (
          arith,
          append_assoc args (part ∷ []) parts,
          length-append (encode_part part) (encode_parts parts),
        )))

-- The frame whose array header is spelled by the digits `s`.
abbrev pub framed : Bytes → List Bytes → Bytes
framed s parts = b'*' ∷ (s ++ (crlf ++ encode_parts parts))

pub read_multibulk_frame-framed :
    (s : Bytes) (parts : List Bytes) (rest : Bytes)
    → AllDigits s
    → length s ≤ max_header_line_length
    → parse_nonnegative_integer s ≡ some (length parts)
    → length parts ≤ max_array_elements
    → AllBounded parts
    → read_multibulk_frame (framed s parts ++ rest)
      ≡ complete (record { args = parts; consumed_bytes = length (framed s parts) })
unfolding read_multibulk_frame
read_multibulk_frame-framed s parts rest digits short parsed few h =
    let body = encode_parts parts ++ rest in
    rw (append_assoc s (crlf ++ encode_parts parts) rest) (
      rw (read_length-digits array_too_long array_invalid s body (length parts) digits short parsed)
        (rw
          (
            drop-header s body (length s + 2) refl,
            ltb-false_of_le max_array_elements (length parts) few,
            read_bulks-encoded parts rest (1 + (length s + 2)) [] h,
          )
          (ground (arith, length-append s (crlf ++ encode_parts parts)))))

-- What the client encodes, at most three arguments of at most 1 MiB each, the server reads back: the
-- same arguments, from exactly those bytes, whatever follows them.
pub read_multibulk_frame-encode_command :
    (parts : List Bytes) (rest : Bytes)
    → length parts ≤ max_array_elements
    → AllBounded parts
    → read_multibulk_frame (encode_command parts ++ rest)
      ≡ complete (record { args = parts; consumed_bytes = length (encode_command parts) })
unfolding encode_command
read_multibulk_frame-encode_command parts rest few h =
    read_multibulk_frame-framed (to_string (length parts)) parts rest
      (to_string-AllDigits (length parts))
      (omega (arith, length-to_string-le (length parts) 18 (omega arith)))
      (parse-to_string (length parts) (omega arith)) few h

-- A header of 20 digits is taken for too long while the line feed behind its carriage return is
-- still missing.
pub read_multibulk_frame-split_crlf :
    (s : Bytes)
    → AllDigits s
    → length s ≡ max_header_line_length
    → read_multibulk_frame (b'*' ∷ (s ++ 13 ∷ [])) ≡ protocol_error (malformed array_too_long)
unfolding read_multibulk_frame read_length read_line
read_multibulk_frame-split_crlf s digits long =
    rw (find_crlf-no_lf s digits) (ground (arith, length-append s (13 ∷ [])))
