-- ===== src/Tests/Stream.antt =====
-- The parser on a stream that arrives in pieces.
use cpp_kv_store.Base.{◌≤◌, ◌<◌, Bytes, some, [], ◌∷◌, ◌++◌, ◌≡◌, refl, arith, length, codes}
use cpp_kv_store.Protocol.Command.{ParseResult, protocol_error}
use cpp_kv_store.Protocol.Integer.{parse_nonnegative_integer, to_string}
use cpp_kv_store.Protocol.Line.{find_crlf, read_line}
use cpp_kv_store.Protocol.Frame.{
  malformed, array_too_long, read_length, read_body, read_bulk, read_bulks, read_multibulk_frame,
}
use cpp_kv_store.Protocol.Frame.Encode.{framed, encode_parts, encode_part}
use cpp_kv_store.Protocol.Build.{build_command, build_named, build_ping, to_upper_ascii}
use cpp_kv_store.Protocol.Serializer.{crlf}
use cpp_kv_store.Protocol.Parser.{parse_command, result_of}
use cpp_kv_store.Protocol.Parser.Stream.{
  settled, IsSettled, parse_command-settled_bounds, parse_command-append, parse_command-split_crlf,
}

-- All that a test of the parser on PING computes with.
-- The parser, with what its runs on PING unfold.
run_ping : Bytes → ParseResult
unfolding parse_command result_of read_multibulk_frame read_bulks read_bulk read_body read_length
    read_line find_crlf parse_nonnegative_integer build_command build_named build_ping
    to_upper_ascii encode_parts encode_part to_string
run_ping = parse_command

abbrev ping_frame : Bytes
ping_frame = codes "*1" ++ (crlf ++ (codes "$4" ++ (crlf ++ (codes "PING" ++ crlf))))

abbrev ping_start : Bytes
ping_start = codes "*1" ++ (crlf ++ codes "$4")

abbrev ping_end : Bytes
ping_end = crlf ++ (codes "PING" ++ crlf)

ping-IsSettled : IsSettled (parse_command ping_frame)
unfolding run_ping
ping-IsSettled = tt

parse_command-append_example : parse_command (ping_frame ++ codes "*3") ≡ parse_command ping_frame
parse_command-append_example = parse_command-append ping_frame (codes "*3") ping-IsSettled

parse_command-settled_bounds_example :
    (IsSettled (parse_command ping_frame)
      → (0 < settled (parse_command ping_frame))
        × (settled (parse_command ping_frame) ≤ length ping_frame))
    × (¬ IsSettled (parse_command ping_frame) → settled (parse_command ping_frame) ≡ 0)
parse_command-settled_bounds_example = parse_command-settled_bounds ping_frame

ping_whole : settled (parse_command (ping_start ++ ping_end)) ≡ length (ping_start ++ ping_end)
unfolding run_ping
ping_whole = refl

long_one : parse_nonnegative_integer (codes "00000000000000000001") ≡ some 1
unfolding parse_nonnegative_integer
long_one = refl

parse_command-split_crlf_example :
    IsSettled (parse_command (framed (codes "00000000000000000001") (codes "PING" ∷ [])))
    × (parse_command (b'*' ∷ (codes "00000000000000000001" ++ 13 ∷ []))
        ≡ protocol_error (malformed array_too_long))
parse_command-split_crlf_example =
    parse_command-split_crlf (codes "00000000000000000001") (codes "PING" ∷ []) (omega arith) refl
      long_one (omega arith) (omega arith)
