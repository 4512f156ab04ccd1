-- ===== src/Protocol/Build/Requests.antt =====
-- The requests of docs/PROTOCOL.md, section 4, and the commands that `build_command` of
-- src/protocol/parser.cpp returns.
use cpp_kv_store.Base.{◌≤◌, Bytes, List, [], ◌∷◌, ◌≡◌, arith, length, codes, Option-cases, inl, inr}
use cpp_kv_store.Base.Int.{ℤ, pos, negsuc}
use cpp_kv_store.Protocol.Command.{Command, CommandType, ping, get, del, exists, expire, ttl}
use cpp_kv_store.Protocol.Command.{set as set_command}
use cpp_kv_store.Protocol.Integer.{to_string, parse_nonnegative_integer}
use cpp_kv_store.Protocol.Integer.RoundTrip.{parse-to_string}
use cpp_kv_store.Protocol.Build.{
  command, build_named, build_ping, build_set, build_keyed, build_expire, check_key_length,
  build_command, to_upper_ascii, keyed,
}
use cpp_kv_store.Protocol.Build.Limits.{IsSeconds, IsWithinLimits, build_command_limits}

-- The text of a number of seconds; a parsed command has no negative one.
abbrev pub seconds_text : ℤ → Bytes
seconds_text (pos n) = to_string n
seconds_text (negsuc n) = []

-- The request of docs/PROTOCOL.md, section 4, for a command.
abbrev pub request_of : CommandType → Bytes → Bytes → ℤ → List Bytes
request_of ping key value seconds = codes "PING" ∷ []
request_of set_command key value seconds = codes "SET" ∷ key ∷ value ∷ []
request_of get key value seconds = codes "GET" ∷ key ∷ []
request_of del key value seconds = codes "DEL" ∷ key ∷ []
request_of exists key value seconds = codes "EXISTS" ∷ key ∷ []
request_of expire key value seconds = codes "EXPIRE" ∷ key ∷ seconds_text seconds ∷ []
request_of ttl key value seconds = codes "TTL" ∷ key ∷ []

-- The fields that a command of this type does not use have their defaults.
abbrev pub HasDefaults : CommandType → Bytes → Bytes → ℤ → Type 0
HasDefaults ping key value seconds = (key ≡ []) × (value ≡ []) × (seconds ≡ pos 0)
HasDefaults set_command key value seconds = seconds ≡ pos 0
HasDefaults expire key value seconds = value ≡ []
HasDefaults _ key value seconds = (value ≡ []) × (seconds ≡ pos 0)

pub build_command-request_of :
    (type : CommandType) (key value : Bytes) (seconds : ℤ)
    → length key ≤ 512
    → length value ≤ 1048576
    → IsSeconds seconds
    → HasDefaults type key value seconds
    → build_command (request_of type key value seconds)
      ≡ command (record { type = type; key = key; value = value; seconds = seconds })
unfolding build_command build_named to_upper_ascii build_ping build_set build_keyed build_expire
    check_key_length
build_command-request_of expire key value (pos n) hk hv hs d =
    rw (parse-to_string n hs) (ground arith)
build_command-request_of expire key value (negsuc n) hk hv hs d = absurd hs
build_command-request_of set_command key value seconds hk hv hs d = ground arith
build_command-request_of _ key value seconds hk hv hs d = ground arith

abbrev HasDefaultFields : Command → Type 0
HasDefaultFields c = HasDefaults c.type c.key c.value c.seconds

build_ping_defaults :
    (name : Bytes) (args : List Bytes) (c : Command)
    → build_ping name args ≡ command c
    → HasDefaultFields c
unfolding build_ping
build_ping_defaults name (_ ∷ []) c h = ground arith
build_ping_defaults name _ c h = ground arith

build_set_defaults :
    (name : Bytes) (args : List Bytes) (c : Command)
    → build_set name args ≡ command c
    → HasDefaultFields c
unfolding build_set
build_set_defaults name (_ ∷ key ∷ value ∷ []) c h = ground arith
build_set_defaults name _ c h = ground arith

-- Of the types of command with a key alone.
abbrev TakesKey : CommandType → Type 0
TakesKey type = (key : Bytes) (c : Command) → keyed type key [] (pos 0) ≡ c → HasDefaultFields c

build_keyed_defaults :
    (type : CommandType) (name : Bytes) (args : List Bytes) (c : Command)
    → TakesKey type
    → build_keyed type name args ≡ command c
    → HasDefaultFields c
unfolding build_keyed
build_keyed_defaults type name (_ ∷ key ∷ []) c takes h = takes key c (ground arith)
build_keyed_defaults type name _ c takes h = ground arith

build_expire_defaults :
    (name : Bytes) (args : List Bytes) (c : Command)
    → build_expire name args ≡ command c
    → HasDefaultFields c
unfolding build_expire
build_expire_defaults name (_ ∷ key ∷ seconds ∷ []) c h =
    elim (Option-cases (parse_nonnegative_integer seconds)) [
      | inl e ↦ ground arith
      | inr (n, e) ↦ ground arith
    ]
build_expire_defaults name _ c h = ground arith

build_command_defaults :
    (args : List Bytes) (c : Command) → build_command args ≡ command c → HasDefaultFields c
unfolding build_command build_named
build_command_defaults [] c h = cc
build_command_defaults (name ∷ rest) c h =
    let upper = to_upper_ascii name in
    let args = name ∷ rest in
    ground (
      arith,
      build_ping_defaults upper args c,
      build_set_defaults upper args c,
      build_expire_defaults upper args c,
      build_keyed_defaults get upper args c (λ key d e. ground arith),
      build_keyed_defaults del upper args c (λ key d e. ground arith),
      build_keyed_defaults exists upper args c (λ key d e. ground arith),
      build_keyed_defaults ttl upper args c (λ key d e. ground arith),
    )

-- `build_command` returns a command for some arguments exactly if its key is at most 512 bytes, its
-- value at most 1 MiB and its seconds are a nonnegative signed 64-bit integer, whether or not it fits
-- the server's clock duration, and the fields that its type does not use have their defaults.
pub build_command_iff :
    (c : Command)
    → (((args : List Bytes) × (build_command args ≡ command c))
        → IsWithinLimits c × HasDefaults c.type c.key c.value c.seconds)
      × (IsWithinLimits c × HasDefaults c.type c.key c.value c.seconds
          → ((args : List Bytes) × (build_command args ≡ command c)))
build_command_iff c = (
  λ (args, h). (build_command_limits args c h, build_command_defaults args c h),
  λ (limits, defaults). (
    request_of c.type c.key c.value c.seconds,
    build_command-request_of c.type c.key c.value c.seconds limits.key_fits limits.value_fits
        limits.seconds_fit defaults,
  ),
)
