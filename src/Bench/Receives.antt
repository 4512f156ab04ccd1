-- ===== src/Bench/Receives.antt =====
-- The benchmark client of benchmarks/client/kv_bench.cpp and the dispatcher of
-- src/command/dispatcher.cpp.
use cpp_kv_store.Base.{
  take, take_all, sym, ap, ◌+◌, ℕ, zero, suc, ◌-◌, ◌≤◌, ◌<◌, Bytes, Bool, true, Option, none, some,
  List, [], ◌∷◌, ◌++◌, map, length, length-append, append_assoc, ◌≡◌, refl, ◌∙◌, arith, codes,
}
use cpp_kv_store.Base.Totals.{total}
use cpp_kv_store.Base.Int.{ℤ, pos, negsuc}
use cpp_kv_store.Protocol.Command.{Command, CommandType}
use cpp_kv_store.Protocol.Integer.{int64_max, to_string}
use cpp_kv_store.Protocol.Integer.RoundTrip.{to_string-AllDigits}
use cpp_kv_store.Protocol.Line.{find_crlf}
use cpp_kv_store.Protocol.Frame.Encode.{find_crlf-digits}
use cpp_kv_store.Protocol.Serializer.{
  crlf, encode_simple_string, encode_integer, to_string_signed, encode_bulk_string,
}
use cpp_kv_store.Storage.Time.{TimePoint}
use cpp_kv_store.Storage.Shard.{TtlResult, no_ttl, has_ttl}
use cpp_kv_store.Storage.Store.{Store}
use cpp_kv_store.Command.{
  encode_value, encode_bool, encode_ttl, dispatch_set, dispatch_get, dispatch_del, dispatch_exists,
  dispatch_expire, dispatch_ttl, dispatch_type, dispatch,
}
use cpp_kv_store.Net.Io.{Received, bytes, taken}
use cpp_kv_store.Bench.{
  whole, more, verdict, recv_chunk_size, after_recv, receive, send_all, send_and_receive,
}
use cpp_kv_store.Bench.Replies.{
  IsReply, line, bulk, null, find_crlf-cons, reply-behind, reply-start,
}

signed-IsReply : (n : ℤ) → IsReply (encode_integer n)
unfolding encode_integer to_string_signed
signed-IsReply (pos n) =
    line b':' (to_string n) refl
      (find_crlf-cons b':' _ _ refl (find_crlf-digits (to_string n) [] (to_string-AllDigits n)))
signed-IsReply (negsuc n) = line b':' (b'-' ∷ to_string (suc n)) refl (
    find_crlf-cons b':' _ _ refl (
      find_crlf-cons b'-' _ _ refl
        (find_crlf-digits (to_string (suc n)) [] (to_string-AllDigits (suc n)))))

bool-IsReply : (b : Bool) → IsReply (encode_bool b)
unfolding encode_bool
bool-IsReply b = signed-IsReply _

ttl-IsReply : (r : TtlResult) → IsReply (encode_ttl r)
unfolding encode_ttl
ttl-IsReply TtlResult.missing = signed-IsReply _
ttl-IsReply no_ttl = signed-IsReply _
ttl-IsReply (has_ttl remaining) = signed-IsReply _

value-IsReply : (v : Option Bytes) → length (encode_value v) ≤ int64_max → IsReply (encode_value v)
unfolding encode_value encode_bulk_string
value-IsReply none fits = null
value-IsReply (some value) fits = bulk value (
    omega (
      arith,
      length-append (to_string (length value)) (crlf ++ (value ++ crlf)),
      length-append value crlf,
    ))

dispatch-IsReply :
    (hash : Bytes → ℕ) (now : TimePoint) (store : Store) (type : CommandType) (c : Command)
    → length (dispatch_type hash now store type c).0 ≤ int64_max
    → IsReply (dispatch_type hash now store type c).0
unfolding dispatch_type dispatch_set dispatch_get dispatch_del dispatch_exists dispatch_expire
    dispatch_ttl encode_simple_string find_crlf
dispatch-IsReply hash now store CommandType.ping c fits = line b'+' (codes "PONG") refl refl
dispatch-IsReply hash now store CommandType.set c fits = line b'+' (codes "OK") refl refl
dispatch-IsReply hash now store CommandType.get c fits = value-IsReply _ fits
dispatch-IsReply hash now store CommandType.del c fits = bool-IsReply _
dispatch-IsReply hash now store CommandType.exists c fits = bool-IsReply _
dispatch-IsReply hash now store CommandType.expire c fits = bool-IsReply _
dispatch-IsReply hash now store CommandType.ttl c fits = ttl-IsReply _

-- What arrives, one piece for each ::recv, which stores no more than the size that it is given.
abbrev pub joined : List Bytes → Bytes
joined [] = []
joined (chunk ∷ chunks) = chunk ++ joined chunks

abbrev pub stores : Bytes → ℕ → Received
stores chunk size = bytes (take size chunk)

abbrev pub IsChunk : Bytes → Type 0
IsChunk chunk = (0 < length chunk) × (length chunk ≤ recv_chunk_size)

abbrev pub AllChunks : List Bytes → Type 0
AllChunks [] = Unit {0}
AllChunks (chunk ∷ chunks) = IsChunk chunk × AllChunks chunks

receive-whole :
    (chunk buffer : Bytes) (later : List (ℕ → Received))
    → IsChunk chunk
    → verdict (buffer ++ chunk) ≡ whole
    → receive (stores chunk ∷ later) buffer ≡ some (true, later)
unfolding receive after_recv
receive-whole [] buffer later (some_byte, fits) e = absurd (omega arith)
receive-whole (c ∷ chunk) buffer later (some_byte, fits) e =
    rw (take_all recv_chunk_size (c ∷ chunk) fits) (rw (e, after_recv) refl)

receive-more :
    (chunk buffer : Bytes) (answers : List (ℕ → Received))
    → IsChunk chunk
    → verdict (buffer ++ chunk) ≡ more
    → receive (stores chunk ∷ answers) buffer ≡ receive answers (buffer ++ chunk)
unfolding receive after_recv
receive-more [] buffer answers (some_byte, fits) e = absurd (omega arith)
receive-more (c ∷ chunk) buffer answers (some_byte, fits) e =
    rw (take_all recv_chunk_size (c ∷ chunk) fits) (rw (e, after_recv) refl)

receive-rest :
    (r : Bytes) (chunks : List Bytes) (last buffer behind : Bytes) (later : List (ℕ → Received))
    → IsReply r
    → AllChunks chunks
    → IsChunk last
    → buffer ++ (joined chunks ++ last) ≡ r ++ behind
    → length buffer + length (joined chunks) < length r
    → receive (map stores chunks ++ stores last ∷ later) buffer ≡ some (true, later)
receive-rest r [] last buffer behind later reply full ends same short =
    receive-whole last buffer later ends (ap verdict same ∙ reply-behind r behind reply)
receive-rest r (chunk ∷ chunks) last buffer behind later reply (fits, full) ends same short =
    let l = length-append chunk (joined chunks) in
    let l' = length-append buffer chunk in
    let moved : (buffer ++ chunk) ++ (joined chunks ++ last) ≡ r ++ behind =
      append_assoc buffer chunk (joined chunks ++ last)
      ∙ ap (◌++◌ buffer) (sym (append_assoc chunk (joined chunks) last))
      ∙ same in
    receive-more chunk buffer _ fits
      (reply-start r (buffer ++ chunk) _ behind reply moved (omega arith))
    ∙ receive-rest r chunks last (buffer ++ chunk) behind later reply full ends moved (omega arith)

-- The numbers of bytes that ::send takes, call after call.
abbrev pub AllPositive : List ℕ → Type 0
AllPositive [] = Unit {0}
AllPositive (n ∷ ns) = (0 < n) × AllPositive ns

send_all-taken :
    (ns : List ℕ) (left : ℕ)
    → AllPositive ns
    → total (λ n. n) ns ≡ left
    → send_all (map taken ns) left ≡ some true
unfolding send_all
send_all-taken [] zero positive sum = refl
send_all-taken [] (suc left) positive sum = absurd (omega arith)
send_all-taken (n ∷ ns) zero positive sum = refl
send_all-taken (zero ∷ ns) (suc left) (some_byte, positive) sum = absurd (omega arith)
send_all-taken (suc n ∷ ns) (suc left) (some_byte, positive) sum =
    send_all-taken ns (suc left - suc n) positive (omega arith)

-- The client returns with the reply of each command, and no later: where ::send takes the request, in
-- any pieces, and ::recv then stores what arrives, in pieces of 1 to 4096 bytes, of which the last is
-- the first to end the dispatcher's reply, whatever stands behind it there, `send_and_receive` returns
-- true and leaves every later answer of ::recv, for replies below 2 ^ 63 bytes.
pub send_and_receive-dispatch :
    (hash : Bytes → ℕ) (now : TimePoint) (store : Store) (command : Command) (request : Bytes)
    (sent : List ℕ) (chunks : List Bytes) (last behind : Bytes) (later : List (ℕ → Received))
    → AllPositive sent
    → total (λ n. n) sent ≡ length request
    → AllChunks chunks
    → IsChunk last
    → joined chunks ++ last ≡ (dispatch hash now store command).0 ++ behind
    → length (joined chunks) < length (dispatch hash now store command).0
    → length (dispatch hash now store command).0 ≤ int64_max
    → send_and_receive (map taken sent) (map stores chunks ++ stores last ∷ later) request
      ≡ some (true, later)
unfolding send_and_receive dispatch
send_and_receive-dispatch hash now store command request sent chunks last behind later positive sum
      full ends same short fits =
    let sends = send_all-taken sent (length request) positive sum in
    rw (sends, send_and_receive)
      (receive-rest _ chunks last [] behind later
        (dispatch-IsReply hash now store command.type command fits) full ends same (omega arith))
