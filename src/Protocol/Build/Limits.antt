-- ===== src/Protocol/Build/Limits.antt =====
-- The limits that `build_command` of src/protocol/parser.cpp checks.
use cpp_kv_store.Base.{◌≤◌, Bytes, List, [], ◌∷◌, ◌≡◌, inl, inr, arith, length, Option-cases}
use cpp_kv_store.Base.Int.{ℤ, pos, negsuc}
use cpp_kv_store.Protocol.Command.{Command, CommandType}
use cpp_kv_store.Protocol.Integer.{int64_max, parse_nonnegative_integer}
use cpp_kv_store.Protocol.Integer.RoundTrip.{parse_nonnegative_integer_iff}
use cpp_kv_store.Protocol.Frame.{max_key_length, max_value_length}
use cpp_kv_store.Protocol.Build.{
  command, build_named, build_ping, build_set, build_keyed, build_expire, build_command,
  to_upper_ascii,
}

abbrev pub IsSeconds : ℤ → Type 0
IsSeconds (pos n) = n ≤ int64_max
IsSeconds (negsuc n) = ⊥

-- Those of docs/PROTOCOL.md, but one: that the seconds fit the server's clock duration, as section 4
-- demands, is not checked.
pub record IsWithinLimits (c : Command) : Type 0 where
  pub key_fits : length c.key ≤ max_key_length
  pub value_fits : length c.value ≤ max_value_length
  pub seconds_fit : IsSeconds c.seconds

build_ping_limits :
    (name : Bytes) (args : List Bytes) (c : Command)
    → build_ping name args ≡ command c
    → IsWithinLimits c
unfolding build_ping
build_ping_limits name (_ ∷ []) c h = ground arith
build_ping_limits name _ c h = ground arith

build_set_limits :
    (name : Bytes) (args : List Bytes) (c : Command)
    → build_set name args ≡ command c
    → IsWithinLimits c
unfolding build_set
build_set_limits name (_ ∷ key ∷ value ∷ []) c h = ground arith
build_set_limits name _ c h = ground arith

build_keyed_limits :
    (type : CommandType) (name : Bytes) (args : List Bytes) (c : Command)
    → build_keyed type name args ≡ command c
    → IsWithinLimits c
unfolding build_keyed
build_keyed_limits type name (_ ∷ key ∷ []) c h = ground arith
build_keyed_limits type name _ c h = ground arith

build_expire_limits :
    (name : Bytes) (args : List Bytes) (c : Command)
    → build_expire name args ≡ command c
    → IsWithinLimits c
unfolding build_expire
build_expire_limits name (_ ∷ key ∷ seconds ∷ []) c h =
    elim (Option-cases (parse_nonnegative_integer seconds)) [
      | inl e ↦ ground arith
      | inr (n, e) ↦
          let sound = (parse_nonnegative_integer_iff seconds n).0 e in ground (arith, sound.3)
    ]
build_expire_limits name _ c h = ground arith

-- The key of a command is at most 512 bytes and its value at most 1 MiB, and the seconds of EXPIRE
-- are a nonnegative signed 64-bit integer.
pub build_command_limits :
    (args : List Bytes) (c : Command) → build_command args ≡ command c → IsWithinLimits c
unfolding build_command build_named
build_command_limits [] c h = cc
build_command_limits (name ∷ rest) c h =
    let upper = to_upper_ascii name in
    let args = name ∷ rest in
    ground (
      arith,
      build_ping_limits upper args c,
      build_set_limits upper args c,
      build_expire_limits upper args c,
      build_keyed_limits CommandType.get upper args c,
      build_keyed_limits CommandType.del upper args c,
      build_keyed_limits CommandType.exists upper args c,
      build_keyed_limits CommandType.ttl upper args c,
    )
