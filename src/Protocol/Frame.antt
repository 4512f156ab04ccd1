-- ===== src/Protocol/Frame.antt =====
-- Phase 1 of src/protocol/parser.cpp: `read_multibulk_frame` and what it calls. A position in the
-- input is kept as the suffix that begins there; `consumed` counts the bytes before it.
pub mod Bounds
pub mod Append
pub mod Encode
pub mod Errors
use cpp_kv_store.Base.{
  ℕ, zero, suc, ◌+◌, ◌*◌, ◌<◌, Bytes, Bool, false, ◌&&◌, Option, none, some, List, [], ◌∷◌, ◌++◌,
  ltb, ◌==◌, if◌then◌else◌, length, take, drop, get_or, codes,
}
use cpp_kv_store.Protocol.Command.{
  Parse, complete, need_more_data, protocol_error, ProtocolError, ProtocolErrorCategory, ◌>>=◌,
}
use cpp_kv_store.Protocol.Integer.{parse_nonnegative_integer}
use cpp_kv_store.Protocol.Line.{LineResult, LineStatus, read_line}

abbrev pub max_key_length : ℕ
max_key_length = 512

abbrev pub max_value_length : ℕ
max_value_length = 1024 * 1024

abbrev pub max_bulk_string_length : ℕ
max_bulk_string_length = max_value_length

abbrev pub max_array_elements : ℕ
max_array_elements = 3

abbrev pub max_header_line_length : ℕ
max_header_line_length = 20

pub record FrameArgs : Type 0 where
  pub args : List Bytes
  pub consumed_bytes : ℕ

abbrev pub FrameResult : Type 0
FrameResult = Parse FrameArgs

unfoldable pub malformed : Bytes → ProtocolError
malformed message = record {
  category = ProtocolErrorCategory.malformed_frame;
  message = message;
  recoverable = false;
  consumed_bytes = 0;
}

abbrev pub field_too_large_error : ProtocolError
field_too_large_error = record {
  category = ProtocolErrorCategory.field_too_large;
  message = codes "bulk string exceeds the maximum field size";
  recoverable = false;
  consumed_bytes = 0;
}

-- The integer in a header's content, with the bytes that the header took.
unfoldable pub length_of_content : Bytes → ℕ → Option ℕ → Parse (ℕ × ℕ)
length_of_content invalid consumed none = protocol_error (malformed invalid)
length_of_content invalid consumed (some n) = complete (n, consumed)

unfoldable pub length_of_line : Bytes → Bytes → LineResult → Parse (ℕ × ℕ)
unfolding length_of_content
length_of_line too_long invalid line = elim line.status [
  | LineStatus.need_more_data ↦ need_more_data
  | LineStatus.too_long ↦ protocol_error (malformed too_long)
  | LineStatus.found ↦
      length_of_content invalid line.consumed (parse_nonnegative_integer line.content)
]

-- The header line after '*' or '$', with the messages for one that is too long or no number.
unfoldable pub read_length : Bytes → Bytes → Bytes → Parse (ℕ × ℕ)
unfolding length_of_line
read_length too_long invalid input =
    length_of_line too_long invalid (read_line input max_header_line_length)

-- The body of a bulk string of `body_len` bytes and its terminator.
unfoldable pub read_body : ℕ → Bytes → Parse Bytes
read_body body_len input =
    if ltb max_bulk_string_length body_len
    then protocol_error field_too_large_error
    else if ltb (length input) (body_len + 2)
    then need_more_data
    else if (get_or input body_len 0 == 13) && (get_or input (body_len + 1) 0 == 10)
    then complete (take body_len input)
    else protocol_error (malformed (codes "bulk string missing terminator"))

abbrev pub bulk_too_long : Bytes
bulk_too_long = codes "bulk string length header too long"

abbrev pub bulk_invalid : Bytes
bulk_invalid = codes "invalid bulk string length"

abbrev pub array_too_long : Bytes
array_too_long = codes "array length header too long"

abbrev pub array_invalid : Bytes
array_invalid = codes "invalid array length"

-- One round of the loop, from the suffix where the bulk string begins: the string, and the bytes
-- that it took.
unfoldable pub read_bulk : Bytes → Parse (Bytes × ℕ)
read_bulk [] = need_more_data
read_bulk (c ∷ line) =
    if c == b'$'
    then (do
      (body_len, header) ← read_length bulk_too_long bulk_invalid line
      body ← read_body body_len (drop header line)
      complete (body, 1 + header + (body_len + 2)))
    else protocol_error (malformed (codes "expected bulk string ('$')"))

-- The loop, with the elements that are left to read.
unfoldable pub read_bulks : ℕ → Bytes → ℕ → List Bytes → FrameResult
read_bulks zero input consumed args = complete (record { args = args; consumed_bytes = consumed })
read_bulks (suc left) input consumed args = do
  (arg, taken) ← read_bulk input
  read_bulks left (drop taken input) (consumed + taken) (args ++ arg ∷ [])

unfoldable pub read_multibulk_frame : Bytes → FrameResult
read_multibulk_frame [] = need_more_data
read_multibulk_frame (c ∷ line) =
    if c == b'*'
    then (do
      (array_len, header) ← read_length array_too_long array_invalid line
      if ltb max_array_elements array_len
          then protocol_error (malformed (codes "too many command arguments"))
          else read_bulks array_len (drop header line) (1 + header) [])
    else protocol_error (malformed (codes "expected RESP array ('*')"))
