-- ===== src/Protocol/Serializer.antt =====
-- src/protocol/serializer.cpp.
use cpp_kv_store.Base.{suc, Bytes, ◌∷◌, [], ◌++◌, length, codes}
use cpp_kv_store.Base.Int.{ℤ, pos, negsuc}
use cpp_kv_store.Protocol.Integer.{to_string}

abbrev pub crlf : Bytes
crlf = 13 ∷ 10 ∷ []

unfoldable pub encode_simple_string : Bytes → Bytes
encode_simple_string value = b'+' ∷ (value ++ crlf)

unfoldable pub encode_error : Bytes → Bytes
encode_error message = b'-' ∷ (message ++ crlf)

-- std::to_string of a signed integer
unfoldable pub to_string_signed : ℤ → Bytes
unfolding to_string
to_string_signed (pos n) = to_string n
to_string_signed (negsuc n) = b'-' ∷ to_string (suc n)

unfoldable pub encode_integer : ℤ → Bytes
unfolding to_string_signed
encode_integer value = b':' ∷ (to_string_signed value ++ crlf)

unfoldable pub encode_bulk_string : Bytes → Bytes
unfolding to_string
encode_bulk_string value = b'$' ∷ (to_string (length value) ++ (crlf ++ (value ++ crlf)))

unfoldable pub encode_null_bulk_string : Bytes
encode_null_bulk_string = codes "$-1" ++ crlf
