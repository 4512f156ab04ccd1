-- ===== src/Cli/Options.antt =====
-- src/cli/options.cpp and include/kvstore/cli/options.hpp, Logger::parse_level, and std::from_chars on an unsigned type of
-- `bits` bits, base 10.
pub mod Sequence
pub mod Level
use cpp_kv_store.Base.{
  ℕ, ◌^◌, Bytes, Bool, true, false, ◌||◌, ◌&&◌, ◌+◌, leb, map, Option, none, some, List, [], ◌∷◌,
  ◌++◌, ltb, if◌then◌else◌, codes, bytes_eq,
}
use cpp_kv_store.Protocol.Integer.{not_digit}
use cpp_kv_store.Protocol.Integer.RoundTrip.{spelled}

pub record ServerOptions : Type 0 where
  pub bind_address : Bytes
  pub port : ℕ
  pub worker_count : ℕ
  pub shard_count : ℕ
  pub queue_capacity : ℕ
  pub log_level : Bytes
  pub show_help : Bool
  pub show_version : Bool

abbrev pub default_options : ServerOptions
default_options = record {
  bind_address = codes "0.0.0.0";
  port = 6380;
  worker_count = 4;
  shard_count = 32;
  queue_capacity = 1024;
  log_level = codes "info";
  show_help = false;
  show_version = false;
}

-- A value, or the message of the std::invalid_argument that is thrown.
pub data Checked (A : Type 0) : Type 0 where
  valid : A → Checked A
  invalid_argument : Bytes → Checked A

-- The leading digits, and what follows them.
unfoldable pub take_digits : Bytes → Bytes × Bytes
take_digits [] = ([], [])
take_digits (c ∷ text) =
    let (digits, rest) = take_digits text in
    if not_digit c then ([], c ∷ text) else (c ∷ digits, rest)

-- std::from_chars: the number and what follows it; `none` where there is no digit, or the number does
-- not fit the type.
unfoldable pub number_of_digits : ℕ → Bytes × Bytes → Option (ℕ × Bytes)
number_of_digits bits ([], rest) = none
number_of_digits bits (c ∷ digits, rest) =
    if ltb (spelled (c ∷ digits) 0) (2 ^ bits) then some (spelled (c ∷ digits) 0, rest) else none

unfoldable pub whole_number : Option (ℕ × Bytes) → Option ℕ
whole_number (some (n, [])) = some n
whole_number _ = none

-- The number that `parse_unsigned` returns; `none` where it throws.
unfoldable pub unsigned_value : ℕ → Bytes → Option ℕ
unsigned_value bits value = whole_number (number_of_digits bits (take_digits value))

abbrev pub quoted : Bytes → Bytes
quoted text = codes "'" ++ (text ++ codes "'")

unfoldable pub parse_unsigned : {A : Type 0} → ℕ → Bytes → Bytes → (ℕ → A) → Checked A
parse_unsigned bits flag value store_value = elim (unsigned_value bits value) [
  | none ↦ invalid_argument (codes "invalid value for " ++ (flag ++ (codes ": " ++ quoted value)))
  | some n ↦ valid (store_value n)
]

-- LogLevel and Logger::parse_level of src/util/logger.cpp
pub data LogLevel : Type 0 where
  debug info warn error : LogLevel

unfoldable pub to_lower_char : ℕ → ℕ
to_lower_char c = if leb b'A' c && leb c b'Z' then c + 32 else c

unfoldable pub level_of : Bytes → Option LogLevel
level_of lowered =
    if bytes_eq lowered (codes "debug")
    then some debug
    else if bytes_eq lowered (codes "info")
    then some info
    else if bytes_eq lowered (codes "warn") || bytes_eq lowered (codes "warning")
    then some warn
    else if bytes_eq lowered (codes "error")
    then some error
    else none

unfoldable pub parse_level : Bytes → Option LogLevel
parse_level name = level_of (map to_lower_char name)

unfoldable pub is_help : Bytes → Bool
is_help arg = bytes_eq arg (codes "--help") || bytes_eq arg (codes "-h")

unfoldable pub is_version : Bytes → Bool
is_version arg = bytes_eq arg (codes "--version") || bytes_eq arg (codes "-v")

unfoldable pub takes_value : Bytes → Bool
takes_value arg =
    bytes_eq arg (codes "--bind")
    || (bytes_eq arg (codes "--port")
        || (bytes_eq arg (codes "--workers")
            || (bytes_eq arg (codes "--shards")
                || (bytes_eq arg (codes "--queue-capacity")
                    || bytes_eq arg (codes "--log-level")))))

-- An option that takes a value, with its value.
unfoldable pub set_option : Bytes → Bytes → ServerOptions → Checked ServerOptions
set_option arg value options =
    if bytes_eq arg (codes "--bind")
    then valid (record options { bind_address = value })
    else if bytes_eq arg (codes "--port")
    then parse_unsigned 16 arg value (λ n. record options { port = n })
    else if bytes_eq arg (codes "--workers")
    then parse_unsigned 64 arg value (λ n. record options { worker_count = n })
    else if bytes_eq arg (codes "--shards")
    then parse_unsigned 64 arg value (λ n. record options { shard_count = n })
    else if bytes_eq arg (codes "--queue-capacity")
    then parse_unsigned 64 arg value (λ n. record options { queue_capacity = n })
    else elim (parse_level value) [
      | some _ ↦ valid (record options { log_level = value })
      | none ↦ invalid_argument (codes "invalid value for --log-level: " ++ quoted value)
    ]

abbrev pub unknown_option : Bytes → Checked ServerOptions
unknown_option arg = invalid_argument (codes "unknown option: " ++ quoted arg)

abbrev pub missing_value : Bytes → Checked ServerOptions
missing_value arg = invalid_argument (codes "missing value for " ++ arg)

-- The loop, from the options set so far.
unfoldable pub parse_from : List Bytes → ServerOptions → Checked ServerOptions
parse_from [] options = valid options
parse_from (arg ∷ []) options =
    if is_help arg
    then valid (record options { show_help = true })
    else if is_version arg
    then valid (record options { show_version = true })
    else if takes_value arg
    then missing_value arg
    else unknown_option arg
parse_from (arg ∷ value ∷ args) options =
    let helped = parse_from (value ∷ args) (record options { show_help = true }) in
    let versioned = parse_from (value ∷ args) (record options { show_version = true }) in
    let with_value : Checked ServerOptions = elim (set_option arg value options) [
      | valid options' ↦ parse_from args options'
      | invalid_argument message ↦ invalid_argument message
    ] in
    if is_help arg
    then helped
    else if is_version arg
    then versioned
    else if takes_value arg
    then with_value
    else unknown_option arg

unfoldable pub parse_args : List Bytes → Checked ServerOptions
parse_args args = parse_from args default_options
