-- ===== src/Protocol/Parser/Commands.antt =====
-- The seven commands through the parser: the request that docs/PROTOCOL.md, section 4, gives each,
-- case-insensitive names, and the reply to a name that is unknown.
use cpp_kv_store.Base.{
  ◌≤◌, Bytes, List, [], ◌∷◌, ◌++◌, ◌≡◌, refl, arith, length, codes, ◌∙◌, ap, append_assoc, Bool,
  true, false, bytes_eq, ◌==◌, ◌||◌, Bool-cases, eq_of_bytes_eq, inl, inr,
}
use cpp_kv_store.Base.Int.{ℤ, pos, negsuc}
use cpp_kv_store.Protocol.Command.{Command, CommandType, ping, expire, complete}
use cpp_kv_store.Protocol.Integer.RoundTrip.{length-to_string-le}
use cpp_kv_store.Protocol.Frame.{max_array_elements}
use cpp_kv_store.Protocol.Frame.Bounds.{AllBounded}
use cpp_kv_store.Protocol.Frame.Encode.{encode_command, read_multibulk_frame-encode_command}
use cpp_kv_store.Protocol.Build.{
  CommandResult, command, semantic_error, build_named, build_ping, build_set, build_keyed,
  build_expire, build_command, to_upper_ascii, unknown_command,
}
use cpp_kv_store.Protocol.Serializer.{crlf, encode_error}
use cpp_kv_store.Protocol.Build.Limits.{IsSeconds, IsWithinLimits}
use cpp_kv_store.Protocol.Build.Requests.{request_of, HasDefaults, build_command-request_of}
use cpp_kv_store.Protocol.Parser.{result_of, parse_command}
use cpp_kv_store.Protocol.Parser.Stream.{parse_command-of_frame}

abbrev request : Command → List Bytes
request c = request_of c.type c.key c.value c.seconds

request_of-fits :
    (type : CommandType) (key value : Bytes) (seconds : ℤ)
    → length key ≤ 512
    → length value ≤ 1048576
    → IsSeconds seconds
    → (length (request_of type key value seconds) ≤ max_array_elements)
      × AllBounded (request_of type key value seconds)
request_of-fits expire key value (pos n) hk hv hs =
    (omega arith, omega (arith, length-to_string-le n 18 (omega arith)))
request_of-fits expire key value (negsuc n) hk hv hs = absurd hs
request_of-fits ping key value seconds hk hv hs = (omega arith, omega arith)
request_of-fits _ key value seconds hk hv hs = (omega arith, omega arith)

-- Every command within the limits that the parser checks, whose unused fields have their defaults, is
-- parsed back from the bytes of its request, and from exactly those, whatever follows them.
pub parse_command-request :
    (c : Command) (rest : Bytes)
    → IsWithinLimits c
    → HasDefaults c.type c.key c.value c.seconds
    → parse_command (encode_command (request c) ++ rest)
      ≡ complete (record { command = c; consumed_bytes = length (encode_command (request c)) })
parse_command-request c rest limits defaults =
    let (few, bounded) =
      request_of-fits c.type c.key c.value c.seconds limits.key_fits limits.value_fits
        limits.seconds_fit in
    parse_command-of_frame (encode_command (request c) ++ rest) _
      (read_multibulk_frame-encode_command (request c) rest few bounded)
    ∙ (unfold result_of in
        rw (
          build_command-request_of c.type c.key c.value c.seconds limits.key_fits limits.value_fits
            limits.seconds_fit defaults))

build_named-original :
    (upper a b : Bytes) (rest : List Bytes) (c : Command)
    → build_named upper a (a ∷ rest) ≡ command c
    → build_named upper b (b ∷ rest) ≡ command c
unfolding build_named build_ping build_set build_keyed build_expire
build_named-original upper a b [] c h = ground arith
build_named-original upper a b (key ∷ []) c h = ground arith
build_named-original upper a b (key ∷ value ∷ []) c h = ground arith
build_named-original upper a b (key ∷ value ∷ extra ∷ rest) c h = ground arith

-- Names that differ in the case of ASCII letters alone build the same command.
pub build_command-case_insensitive :
    (a b : Bytes) (rest : List Bytes) (c : Command)
    → to_upper_ascii a ≡ to_upper_ascii b
    → build_command (a ∷ rest) ≡ command c
    → build_command (b ∷ rest) ≡ command c
unfolding build_command
build_command-case_insensitive a b rest c e h =
    rw (← e) (build_named-original (to_upper_ascii a) a b rest c h)

has_cr : Bytes → Bool
has_cr [] = false
has_cr (c ∷ s) = (c == 13) || has_cr s

has_cr-to_upper_ascii : (a b : Bytes) → has_cr (to_upper_ascii (a ++ 13 ∷ b)) ≡ true
unfolding has_cr to_upper_ascii
has_cr-to_upper_ascii [] b = refl
has_cr-to_upper_ascii (c ∷ a) b = ground (arith, has_cr-to_upper_ascii a b)

bytes_eq-has_cr : (s t : Bytes) → has_cr s ≡ true → has_cr t ≡ false → bytes_eq s t ≡ false
bytes_eq-has_cr s t hs ht = elim (Bool-cases (bytes_eq s t)) [
  | inl e ↦ let same = ap has_cr (eq_of_bytes_eq s t e) in cc
  | inr e ↦ e
]

build_named-unknown :
    (upper name : Bytes) (args : List Bytes)
    → has_cr upper ≡ true
    → build_named upper name args ≡ semantic_error (unknown_command name)
unfolding build_named has_cr
build_named-unknown upper name args h = rw (
  bytes_eq-has_cr upper (codes "PING") h refl,
  bytes_eq-has_cr upper (codes "SET") h refl,
  bytes_eq-has_cr upper (codes "GET") h refl,
  bytes_eq-has_cr upper (codes "DEL") h refl,
  bytes_eq-has_cr upper (codes "EXISTS") h refl,
  bytes_eq-has_cr upper (codes "EXPIRE") h refl,
  bytes_eq-has_cr upper (codes "TTL") h refl,
)

-- The error reply to a request, as the event loop encodes it.
abbrev pub error_reply : CommandResult → Bytes
error_reply (command c) = []
error_reply (semantic_error e) = encode_error e.message

-- A command name that holds a line break is echoed with it: the error reply then is a whole reply
-- line that ends where the client put the break, and behind it stand the client's own bytes `b`.
pub error_reply-injection :
    (a b : Bytes) (rest : List Bytes)
    → error_reply (build_command ((a ++ (crlf ++ b)) ∷ rest))
      ≡ (codes "-ERR unknown command '" ++ (a ++ crlf)) ++ (b ++ (codes "'" ++ crlf))
unfolding build_command unknown_command encode_error
error_reply-injection a b rest =
    rw
      (build_named-unknown (to_upper_ascii (a ++ (crlf ++ b))) (a ++ (crlf ++ b))
        ((a ++ (crlf ++ b)) ∷ rest) (has_cr-to_upper_ascii a (10 ∷ b)))
      (simp append_assoc)
