-- ===== src/Protocol/Build.antt =====
-- Phase 2 of src/protocol/parser.cpp: `build_command` and what it calls.
pub mod Limits
pub mod Requests
use cpp_kv_store.Base.{
  ℕ, ◌-◌, Bytes, Bool, ◌&&◌, Option, none, some, List, [], ◌∷◌, ◌++◌, map, ltb, leb, if◌then◌else◌,
  length, codes, bytes_eq,
}
use cpp_kv_store.Base.Int.{ℤ, pos}
use cpp_kv_store.Protocol.Command.{Command, CommandType, ProtocolErrorCategory}
use cpp_kv_store.Protocol.Integer.{parse_nonnegative_integer}
use cpp_kv_store.Protocol.Frame.{max_key_length, max_value_length}

unfoldable pub to_upper_char : ℕ → ℕ
to_upper_char c = if leb b'a' c && leb c b'z' then c - 32 else c

unfoldable pub to_upper_ascii : Bytes → Bytes
unfolding to_upper_char
to_upper_ascii = map to_upper_char

pub record SemanticError : Type 0 where
  pub category : ProtocolErrorCategory
  pub message : Bytes

pub data CommandResult : Type 0 where
  command : Command → CommandResult
  semantic_error : SemanticError → CommandResult

unfoldable pub arity_error : Bytes → SemanticError
arity_error name = record {
  category = ProtocolErrorCategory.wrong_arity;
  message = codes "ERR wrong number of arguments for '" ++ (name ++ codes "' command");
}

unfoldable pub check_key_length : Bytes → Option SemanticError
check_key_length key =
    if ltb max_key_length (length key)
    then some (record {
      category = ProtocolErrorCategory.field_too_large;
      message = codes "ERR key exceeds maximum size";
    })
    else none

-- `if (const auto err = check_key_length(key)) return *err;` before the rest
abbrev after_check : Option SemanticError → CommandResult → CommandResult
after_check (some err) rest = semantic_error err
after_check none rest = rest

abbrev pub keyed : CommandType → Bytes → Bytes → ℤ → Command
keyed type key value seconds = record { type = type; key = key; value = value; seconds = seconds }

-- The branches of `build_command`, from the uppercased name and the arguments, the name included.
unfoldable pub build_ping : Bytes → List Bytes → CommandResult
unfolding arity_error
build_ping name (_ ∷ []) = command (keyed CommandType.ping [] [] (pos 0))
build_ping name _ = semantic_error (arity_error name)

unfoldable pub build_set : Bytes → List Bytes → CommandResult
unfolding arity_error check_key_length
build_set name (_ ∷ key ∷ value ∷ []) = after_check (check_key_length key) (
    if ltb max_value_length (length value)
    then semantic_error (record {
      category = ProtocolErrorCategory.field_too_large;
      message = codes "ERR value exceeds maximum size";
    })
    else command (keyed CommandType.set key value (pos 0)))
build_set name _ = semantic_error (arity_error name)

-- GET, DEL, EXISTS and TTL, which take one key.
unfoldable pub build_keyed : CommandType → Bytes → List Bytes → CommandResult
unfolding arity_error check_key_length
build_keyed type name (_ ∷ key ∷ []) =
    after_check (check_key_length key) (command (keyed type key [] (pos 0)))
build_keyed type name _ = semantic_error (arity_error name)

unfoldable pub expire_with : Bytes → Option ℕ → CommandResult
expire_with key none = semantic_error (record {
  category = ProtocolErrorCategory.invalid_integer;
  message = codes "ERR value is not an integer or out of range";
})
expire_with key (some seconds) = command (keyed CommandType.expire key [] (pos seconds))

unfoldable pub build_expire : Bytes → List Bytes → CommandResult
unfolding arity_error check_key_length expire_with
build_expire name (_ ∷ key ∷ seconds ∷ []) =
    after_check (check_key_length key) (expire_with key (parse_nonnegative_integer seconds))
build_expire name _ = semantic_error (arity_error name)

unfoldable pub unknown_command : Bytes → SemanticError
unknown_command name = record {
  category = ProtocolErrorCategory.unknown_command;
  message = codes "ERR unknown command '" ++ (name ++ codes "'");
}

-- The ladder of tests on the uppercased name.
unfoldable pub build_named : Bytes → Bytes → List Bytes → CommandResult
build_named name original args =
    if bytes_eq name (codes "PING")
    then build_ping name args
    else if bytes_eq name (codes "SET")
    then build_set name args
    else if bytes_eq name (codes "GET")
    then build_keyed CommandType.get name args
    else if bytes_eq name (codes "DEL")
    then build_keyed CommandType.del name args
    else if bytes_eq name (codes "EXISTS")
    then build_keyed CommandType.exists name args
    else if bytes_eq name (codes "EXPIRE")
    then build_expire name args
    else if bytes_eq name (codes "TTL")
    then build_keyed CommandType.ttl name args
    else semantic_error (unknown_command original)

unfoldable pub build_command : List Bytes → CommandResult
build_command [] = semantic_error (unknown_command [])
build_command (name ∷ rest) = build_named (to_upper_ascii name) name (name ∷ rest)
