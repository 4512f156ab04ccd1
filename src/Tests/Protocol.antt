-- ===== src/Tests/Protocol.antt =====
-- The parser and the serializer.
use cpp_kv_store.Base.{
  List, ◌≤◌, Bytes, none, some, [], ◌∷◌, ◌++◌, ◌≡◌, ◌≢◌, refl, arith, length, codes,
}
use cpp_kv_store.Base.Int.{pos, negsuc}
use cpp_kv_store.Protocol.Command.{Command, CommandType, ParseResult, complete, need_more_data}
use cpp_kv_store.Protocol.Integer.{int64_max, parse_nonnegative_integer, to_string}
use cpp_kv_store.Protocol.Integer.RoundTrip.{AllDigits, spelled, parse_nonnegative_integer_iff}
use cpp_kv_store.Protocol.Line.{find_crlf, read_line}
use cpp_kv_store.Protocol.Frame.{
  read_length, read_body, read_bulk, read_bulks, read_multibulk_frame,
}
use cpp_kv_store.Protocol.Frame.Encode.{encode_command, encode_parts, encode_part}
use cpp_kv_store.Protocol.Build.{
  command, build_command, build_named, build_keyed, build_set, build_ping, build_expire,
  to_upper_ascii, check_key_length,
}
use cpp_kv_store.Protocol.Build.Limits.{IsWithinLimits}
use cpp_kv_store.Protocol.Build.Requests.{request_of, HasDefaults, build_command_iff}
use cpp_kv_store.Protocol.Serializer.{crlf, encode_integer}
use cpp_kv_store.Protocol.Parser.{parse_command, result_of}
use cpp_kv_store.Protocol.Parser.Commands.{
  error_reply, parse_command-request, error_reply-injection,
}

to_string_test : to_string 1048576 ≡ codes "1048576"
unfolding to_string
to_string_test = refl

encode_integer_test : encode_integer (negsuc 1) ≡ codes ":-2" ++ crlf
unfolding encode_integer
encode_integer_test = refl

parse_max : parse_nonnegative_integer (codes "9223372036854775807") ≡ some int64_max
unfolding parse_nonnegative_integer
parse_max = refl

parse_overflow : parse_nonnegative_integer (codes "9223372036854775808") ≡ none
unfolding parse_nonnegative_integer
parse_overflow = refl

-- All that a test of the parser computes with.
-- The parser, with what its runs unfold.
run_parser : Bytes → ParseResult
unfolding parse_command result_of read_multibulk_frame read_bulks read_bulk read_body read_length
    read_line find_crlf parse_nonnegative_integer build_command build_named build_set build_keyed
    build_expire build_ping to_upper_ascii check_key_length encode_command encode_parts encode_part
    to_string
run_parser = parse_command

abbrev set_command : Command
set_command = record {
  type = CommandType.set;
  key = codes "k";
  value = codes "vv";
  seconds = pos 0;
}

parse_set :
    parse_command (encode_command (codes "set" ∷ codes "k" ∷ codes "vv" ∷ []) ++ codes "*1")
    ≡ complete (record { command = set_command; consumed_bytes = 28 })
unfolding run_parser
parse_set = refl

parse_half : parse_command (codes "*3" ++ (crlf ++ codes "$3")) ≡ need_more_data
unfolding run_parser
parse_half = refl

parse_nonnegative_integer_iff_example :
    (parse_nonnegative_integer (codes "007") ≡ some 7
      → (codes "007" ≢ [])
        × AllDigits (codes "007")
        × (7 ≡ spelled (codes "007") 0)
        × (7 ≤ int64_max))
    × ((codes "007" ≢ [])
          × AllDigits (codes "007")
          × (7 ≡ spelled (codes "007") 0)
          × (7 ≤ int64_max)
        → parse_nonnegative_integer (codes "007") ≡ some 7)
parse_nonnegative_integer_iff_example = parse_nonnegative_integer_iff (codes "007") 7

build_set_test : build_command (codes "set" ∷ codes "k" ∷ codes "vv" ∷ []) ≡ command set_command
unfolding run_parser
build_set_test = refl

set_command-IsWithinLimits : IsWithinLimits set_command
set_command-IsWithinLimits = record {
  key_fits = omega arith;
  value_fits = omega arith;
  seconds_fit = omega arith;
}

-- The longest lifetime of EXPIRE, of more nanoseconds than the clock's duration holds.
abbrev expire_command : Command
expire_command = record {
  type = CommandType.expire;
  key = codes "k";
  value = [];
  seconds = pos int64_max;
}

build_command_iff_example :
    (((args : List Bytes) × (build_command args ≡ command expire_command))
      → IsWithinLimits expire_command
        × HasDefaults CommandType.expire (codes "k") [] (pos int64_max))
    × (IsWithinLimits expire_command × HasDefaults CommandType.expire (codes "k") [] (pos int64_max)
        → ((args : List Bytes) × (build_command args ≡ command expire_command)))
build_command_iff_example = build_command_iff expire_command

parse_command-request_example :
    parse_command
      (encode_command (request_of CommandType.set (codes "k") (codes "vv") (pos 0)) ++ codes "*1")
    ≡ complete (record {
      command = set_command;
      consumed_bytes =
          length (encode_command (request_of CommandType.set (codes "k") (codes "vv") (pos 0)));
    })
parse_command-request_example =
    parse_command-request set_command (codes "*1") set_command-IsWithinLimits refl

error_reply-injection_example :
    error_reply (build_command ((codes "foo" ++ (crlf ++ codes "+OK")) ∷ []))
    ≡ (codes "-ERR unknown command '" ++ (codes "foo" ++ crlf))
      ++ (codes "+OK" ++ (codes "'" ++ crlf))
error_reply-injection_example = error_reply-injection (codes "foo") (codes "+OK") []
