-- ===== src/Bench.antt =====
-- `send_and_receive` of benchmarks/client/kv_bench.cpp, over what ::send and ::recv answer, with
-- std::strtol.
pub mod Replies
pub mod Receives
use Prim.Native.Nat.{min}
use cpp_kv_store.Base.{
  ℕ, zero, suc, ◌+◌, ◌-◌, ◌*◌, ◌^◌, Bytes, Bool, true, false, ◌||◌, ◌&&◌, Option, none, some, List,
  [], ◌∷◌, ◌++◌, ltb, leb, ◌==◌, if◌then◌else◌, length,
}
use cpp_kv_store.Base.Int.{ℤ, pos, negsuc}
use cpp_kv_store.Protocol.Integer.{int64_max, not_digit}
use cpp_kv_store.Protocol.Line.{find_crlf}
use cpp_kv_store.Net.Io.{Received, bytes, Sent, taken}

-- The digits at the start of a text, as a number that stops at a limit.
unfoldable pub leading_digits : ℕ → Bytes → ℕ → ℕ
leading_digits limit [] value = value
leading_digits limit (c ∷ text) value =
    let rest = leading_digits limit text (min (value * 10 + (c - b'0')) limit) in
    if not_digit c then value else rest

abbrev negated : ℕ → ℤ
negated n = elim n [ zero ↦ pos 0 | suc k ↦ negsuc k ]

-- After the white space; long has 64 bits.
unfoldable pub signed_number : Bytes → ℤ
signed_number [] = pos 0
signed_number (c ∷ text) =
    if c == b'-'
    then negated (leading_digits (int64_max + 1) text 0)
    else if c == b'+'
    then pos (leading_digits int64_max text 0)
    else pos (leading_digits int64_max (c ∷ text) 0)

abbrev is_space : ℕ → Bool
is_space c = (c == 32) || (leb 9 c && leb c 13)

-- std::strtol(text, nullptr, 10). A zero byte, where the C string ends, is no digit.
unfoldable pub strtol : Bytes → ℤ
unfolding signed_number
strtol [] = pos 0
strtol (c ∷ text) = let rest = strtol text in if is_space c then rest else signed_number (c ∷ text)

-- What is done with the buffer after a ::recv: a reply is there, more is needed, or it is none.
pub data Verdict : Type 0 where
  whole more refused : Verdict

-- A bulk string with a header line that ends at `header_end`, of a buffer's length.
unfoldable pub bulk_verdict : ℕ → ℤ → ℕ → Verdict
bulk_verdict header_end (negsuc n) size = whole
bulk_verdict header_end (pos n) size = if leb (header_end + 2 + n + 2) size then whole else more

unfoldable pub line_verdict : Bytes → Verdict
line_verdict buffer = elim (find_crlf buffer) [ none ↦ more | some header_end ↦ whole ]

unfoldable pub header_verdict : Bytes → Bytes → Verdict
unfolding bulk_verdict
header_verdict text buffer = elim (find_crlf buffer) [
  | none ↦ more
  | some header_end ↦ bulk_verdict header_end (strtol text) (length buffer)
]

unfoldable pub verdict : Bytes → Verdict
unfolding line_verdict header_verdict
verdict [] = more
verdict (type ∷ text) =
    if (type == b'+') || ((type == b'-') || (type == b':'))
    then line_verdict (type ∷ text)
    else if type == b'$'
    then header_verdict text (type ∷ text)
    else refused

-- sizeof(chunk)
abbrev pub recv_chunk_size : ℕ
recv_chunk_size = 4096

-- What follows a ::recv, with the loop's next round.
unfoldable pub after_recv :
    Received
    → List (ℕ → Received)
    → Bytes
    → (Bytes → Option (Bool × List (ℕ → Received)))
    → Option (Bool × List (ℕ → Received))
after_recv (Received.failed e) answers buffer next = some (false, answers)
after_recv (bytes []) answers buffer next = some (false, answers)
after_recv (bytes (c ∷ chunk)) answers buffer next = elim (verdict (buffer ++ (c ∷ chunk))) [
  | whole ↦ some (true, answers)
  | more ↦ next (buffer ++ (c ∷ chunk))
  | refused ↦ some (false, answers)
]

-- The loop of ::recv, over its answers, call after call, to the size that it is given; `none` is a
-- call that blocks. With the answers that are left.
unfoldable pub receive : List (ℕ → Received) → Bytes → Option (Bool × List (ℕ → Received))
receive [] buffer = none
receive (recv ∷ answers) buffer = after_recv (recv recv_chunk_size) answers buffer (receive answers)

-- The loop of ::send, with what is left of the request.
unfoldable pub send_all : List Sent → ℕ → Option Bool
send_all answers zero = some true
send_all [] (suc left) = none
send_all (Sent.failed e ∷ answers) (suc left) = some false
send_all (taken zero ∷ answers) (suc left) = some false
send_all (taken (suc n) ∷ answers) (suc left) = send_all answers (suc left - suc n)

unfoldable pub send_and_receive :
    List Sent → List (ℕ → Received) → Bytes → Option (Bool × List (ℕ → Received))
send_and_receive sends answers request = elim (send_all sends (length request)) [
  | none ↦ none
  | some false ↦ some (false, answers)
  | some true ↦ receive answers []
]
