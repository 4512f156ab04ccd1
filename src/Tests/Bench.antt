-- ===== src/Tests/Bench.antt =====
-- The benchmark client.
use cpp_kv_store.Base.{
  ℕ, ◌≤◌, ◌<◌, ◌≡◌, refl, ap, arith, true, some, none, List, [], ◌∷◌, Bytes, map, length, codes,
  ◌++◌,
}
use cpp_kv_store.Base.Assoc.{find}
use cpp_kv_store.Base.Int.{pos}
use cpp_kv_store.Protocol.Command.{Command, CommandType}
use cpp_kv_store.Protocol.Integer.{int64_max, to_string, decimal}
use cpp_kv_store.Protocol.Frame.Encode.{encode_command, encode_parts, encode_part}
use cpp_kv_store.Protocol.Serializer.{encode_bulk_string}
use cpp_kv_store.Storage.Shard
use cpp_kv_store.Storage.Store
use cpp_kv_store.Storage.Store.{Store, store_of}
use cpp_kv_store.Command.{dispatch, dispatch_type, dispatch_get, encode_value}
use cpp_kv_store.Net.Io.{Received, taken}
use cpp_kv_store.Bench.{send_and_receive}
use cpp_kv_store.Bench.Receives.{joined, stores, send_and_receive-dispatch}
use cpp_kv_store.Protocol.Serializer.{crlf}

abbrev stored : Store
stored = record {
  shard_count = 1;
  shards =
      record {
        entries = (codes "k", record { value = codes "ab"; deadline = none; generation = 0 }) ∷ [];
        next_generation = 1;
        expiration_heap = [];
      }
      ∷ [];
  active_expirations = 0;
}

abbrev get_k : Command
get_k = record { type = CommandType.get; key = codes "k"; value = []; seconds = pos 0 }

-- The reply arrives in three pieces: the first ends within a line break, and the last has a byte more.
abbrev pieces : List Bytes
pieces = (codes "$2" ++ (13 ∷ [])) ∷ (10 ∷ codes "ab") ∷ []

abbrev last_piece : Bytes
last_piece = crlf ++ codes "+"

-- A later ::recv.
abbrev later : List (ℕ → Received)
later = stores (codes "OK") ∷ []

reply_is : codes "$2" ++ (crlf ++ (codes "ab" ++ crlf)) ≡ (dispatch length 10 stored get_k).0
unfolding dispatch dispatch_type dispatch_get Store.get Store.on_shard Store.shard_for
    Store.shard_index Shard.get Shard.read_live Shard.shared_phase Shard.seen_entry Shard.is_expired
    Shard.has_passed find encode_value encode_bulk_string to_string decimal
reply_is = refl

reply_fits : length (dispatch length 10 stored get_k).0 ≤ int64_max
reply_fits = let e = ap length reply_is in omega arith

pieces_end : joined pieces ++ last_piece ≡ (dispatch length 10 stored get_k).0 ++ codes "+"
pieces_end = ap (λ r. r ++ codes "+") reply_is

pieces_short : length (joined pieces) < length (dispatch length 10 stored get_k).0
pieces_short = let e = ap length reply_is in omega arith

send_and_receive-dispatch_example :
    send_and_receive
      (map taken (5 ∷ 15 ∷ []))
      (map stores pieces ++ stores last_piece ∷ later)
      (encode_command (codes "GET" ∷ codes "k" ∷ []))
    ≡ some (true, later)
unfolding encode_command encode_parts encode_part to_string decimal
send_and_receive-dispatch_example =
    send_and_receive-dispatch length 10 stored get_k (encode_command (codes "GET" ∷ codes "k" ∷ []))
      (5 ∷ 15 ∷ []) pieces last_piece (codes "+") later (omega arith, (omega arith, tt)) refl
      ((omega arith, omega arith), ((omega arith, omega arith), tt)) (omega arith, omega arith)
      pieces_end pieces_short reply_fits
