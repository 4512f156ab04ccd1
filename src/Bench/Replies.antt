-- ===== src/Bench/Replies.antt =====
-- The benchmark client of benchmarks/client/kv_bench.cpp finds the end of each reply that
-- src/protocol/serializer.cpp encodes.
use cpp_kv_store.Base.{
  drop, length-drop, take-append, take-drop, append_assoc, ℕ, zero, suc, ◌+◌, ◌*◌, ◌-◌, ◌≤◌, ◌<◌,
  ◌==◌, Bytes, Bool, true, false, none, some, [], ◌∷◌, ◌++◌, ◌||◌, if◌then◌else◌, length,
  length-append, take, take-length-append, append-nil, ◌≡◌, ◌⊎◌, inl, inr, refl, sym, ◌∙◌, ap,
  subst, arith, Option-cases,
}
use cpp_kv_store.Base.Int.{pos}
use cpp_kv_store.Protocol.Integer.{int64_max, parse_digits, parse_nonnegative_integer, to_string}
use cpp_kv_store.Protocol.Integer.RoundTrip.{AllDigits, to_string-AllDigits, parse-to_string}
use cpp_kv_store.Protocol.Line.{find_crlf, find_crlf-le, find_crlf-append}
use cpp_kv_store.Protocol.Frame.Encode.{find_crlf-digits}
use cpp_kv_store.Protocol.Serializer.{crlf, encode_bulk_string, encode_null_bulk_string}
use cpp_kv_store.Bench.{
  leading_digits, signed_number, strtol, Verdict, whole, more, bulk_verdict, line_verdict,
  header_verdict, verdict,
}

leading_digits-parsed :
    (s rest : Bytes) (value n : ℕ)
    → parse_digits s value ≡ some n
    → leading_digits int64_max (s ++ 13 ∷ rest) value ≡ n
unfolding parse_digits leading_digits
leading_digits-parsed [] rest value n h = ground arith
leading_digits-parsed (c ∷ s) rest value n h =
    ground (arith, leading_digits-parsed s rest (value * 10 + (c - b'0')) n)

-- std::strtol reads a number up to its line break.
strtol-digits :
    (s rest : Bytes) (n : ℕ)
    → AllDigits s
    → parse_nonnegative_integer s ≡ some n
    → strtol (s ++ 13 ∷ rest) ≡ pos n
unfolding parse_nonnegative_integer strtol signed_number
strtol-digits [] rest n digits h = cc
strtol-digits (c ∷ s) rest n digits h = ground (arith, leading_digits-parsed (c ∷ s) rest 0 n h)

-- A part of a text has the text's first line break, if it is long enough.
find_crlf-part :
    (p q r : Bytes) (k : ℕ)
    → p ++ q ≡ r
    → find_crlf r ≡ some k
    → ((find_crlf p ≡ none) × (0 < length q)) ⊎ ((find_crlf p ≡ some k) × (k + 2 ≤ length p))
find_crlf-part p q r k same h = elim (Option-cases (find_crlf p)) [
  | inl e ↦ inl (e, left q e same)
  | inr (j, e) ↦
      let there = find_crlf-append p q j e in
      let k' : j ≡ k = ground arith in
      inr (rw (sym k') e, (let l = find_crlf-le p j e in omega arith))
]
  where
    left : (q : Bytes) → find_crlf p ≡ none → p ++ q ≡ r → 0 < length q
    left [] e same =
        let there : find_crlf p ≡ some k = ap find_crlf (sym (append-nil p) ∙ same) ∙ h in absurd cc
    left (c ∷ q) e same = omega arith

pub find_crlf-cons :
    (c : ℕ) (s : Bytes) (k : ℕ)
    → (c == 13) ≡ false
    → find_crlf s ≡ some k
    → find_crlf (c ∷ s) ≡ some (suc k)
unfolding find_crlf
find_crlf-cons c [] k other h = cc
find_crlf-cons c (d ∷ s) k other h = ground arith

-- A part of a text that is longer than the text's header line starts with it.
header-part :
    (s rest p q : Bytes)
    → p ++ q ≡ s ++ (crlf ++ rest)
    → length s + 2 ≤ length p
    → (later : Bytes) × (p ≡ s ++ (crlf ++ later))
header-part [] rest [] q same long = absurd (omega arith)
header-part [] rest (a ∷ []) q same long = absurd (omega arith)
header-part [] rest (a ∷ b ∷ p) q same long = (p, ground arith)
header-part (d ∷ s) rest [] q same long = absurd (omega arith)
header-part (d ∷ s) rest (a ∷ p) q same long =
    let (later, e) = header-part s rest p q (ground arith) (omega arith) in (later, ground arith)

length-part : (p q r : Bytes) → p ++ q ≡ r → length p + length q ≡ length r
length-part p q r same = omega (arith, length-append p q, ap length same)

-- What a server replies: a line, in which nothing before its end is a line break, a bulk string, or
-- the null bulk string.
abbrev pub is_line : ℕ → Bool
is_line type = (type == b'+') || ((type == b'-') || (type == b':'))

pub data IsReply : Bytes → Type 0 where
  line :
      (type : ℕ) (s : Bytes)
      → is_line type ≡ true
      → find_crlf (type ∷ (s ++ crlf)) ≡ some (suc (length s))
      → IsReply (type ∷ (s ++ crlf))
  bulk : (value : Bytes) → length value ≤ int64_max → IsReply (encode_bulk_string value)
  null : IsReply encode_null_bulk_string

verdict-is_line :
    (type : ℕ) (text : Bytes)
    → is_line type ≡ true
    → verdict (type ∷ text) ≡ line_verdict (type ∷ text)
unfolding verdict
verdict-is_line type text known = rw known refl

abbrev pub whole_if : ℕ → Verdict
whole_if left = if left == 0 then whole else more

line-part :
    (type : ℕ) (s p q : Bytes)
    → is_line type ≡ true
    → find_crlf (type ∷ (s ++ crlf)) ≡ some (suc (length s))
    → p ++ q ≡ type ∷ (s ++ crlf)
    → verdict p ≡ whole_if (length q)
unfolding line_verdict
line-part type s [] q known ends same = let l = ap length same in (unfold verdict in ground arith)
line-part type s (t ∷ p) q known ends same =
    let size = length-part (t ∷ p) q _ same in
    let sum = length-append s crlf in
    let there : t ≡ type = ground arith in
    verdict-is_line t p (rw there known) ∙ elim (find_crlf-part (t ∷ p) q _ _ same ends) [
      | inl (e, l) ↦ rw (e, line_verdict) (ground arith)
      | inr (e, l) ↦ rw (e, line_verdict) (ground arith)
    ]

verdict-bulk : (text : Bytes) → verdict (b'$' ∷ text) ≡ header_verdict text (b'$' ∷ text)
unfolding verdict
verdict-bulk text = refl

header_verdict-part :
    (value p q : Bytes)
    → length value ≤ int64_max
    → (b'$' ∷ p) ++ q ≡ encode_bulk_string value
    → header_verdict p (b'$' ∷ p) ≡ whole_if (length q)
unfolding header_verdict bulk_verdict encode_bulk_string
header_verdict-part value p q fits same =
    let s = to_string (length value) in
    let rest = value ++ crlf in
    let digits = to_string-AllDigits (length value) in
    let size = length-part (b'$' ∷ p) q _ same in
    let sum = length-append s (crlf ++ rest) in
    let sum' = length-append value crlf in
    let ends = find_crlf-cons b'$' (s ++ (crlf ++ rest)) _ refl (find_crlf-digits s rest digits) in
    elim (find_crlf-part (b'$' ∷ p) q _ _ same ends) [
      | inl (e, l) ↦ rw (e, header_verdict) (ground arith)
      | inr (e, l) ↦
          let (later, starts) = header-part s rest p q (ground arith) (omega arith) in
          let number : strtol p ≡ pos (length value) =
            ap strtol starts
            ∙ strtol-digits s (10 ∷ later) (length value) digits
                (parse-to_string (length value) fits) in
          rw (e, header_verdict, number) (ground arith)
    ]

bulk-part :
    (value p q : Bytes)
    → length value ≤ int64_max
    → p ++ q ≡ encode_bulk_string value
    → verdict p ≡ whole_if (length q)
unfolding encode_bulk_string
bulk-part value [] q fits same = let l = ap length same in (unfold verdict in ground arith)
bulk-part value (t ∷ p) q fits same =
    let there : t ≡ b'$' = ground arith in
    rw there (
      verdict-bulk p
      ∙ header_verdict-part value p q fits
          (subst (λ c. (c ∷ p) ++ q ≡ encode_bulk_string value) there same))

null-part : (p q : Bytes) → p ++ q ≡ encode_null_bulk_string → verdict p ≡ whole_if (length q)
unfolding encode_null_bulk_string verdict header_verdict bulk_verdict find_crlf strtol signed_number
    leading_digits
null-part p q same =
    let size = length-part p q _ same in
    let starts : p ≡ take (length p) encode_null_bulk_string =
      sym (take-length-append p q) ∙ ap (take (length p)) same in
    ap verdict starts ∙ of_length (length p) q size
  where
    of_length :
        (k : ℕ) (q : Bytes)
        → k + length q ≡ length encode_null_bulk_string
        → verdict (take k encode_null_bulk_string) ≡ whole_if (length q)
    of_length zero q size = ground arith
    of_length (suc zero) q size = ground arith
    of_length (suc (suc zero)) q size = ground arith
    of_length (suc (suc (suc zero))) q size = ground arith
    of_length (suc (suc (suc (suc zero)))) q size = ground arith
    of_length (suc (suc (suc (suc (suc k))))) q size = ground arith

reply-part : (r p q : Bytes) → IsReply r → p ++ q ≡ r → verdict p ≡ whole_if (length q)
reply-part _ p q (line type s known ends) same = line-part type s p q known ends same
reply-part _ p q (bulk value fits) same = bulk-part value p q fits same
reply-part _ p q null same = null-part p q same

-- With anything behind it a reply is there.
bulk-behind :
    (value behind : Bytes)
    → length value ≤ int64_max
    → verdict (encode_bulk_string value ++ behind) ≡ whole
unfolding encode_bulk_string header_verdict bulk_verdict
bulk-behind value behind fits =
    let s = to_string (length value) in
    let rest = value ++ crlf in
    let digits = to_string-AllDigits (length value) in
    let size = length-append (encode_bulk_string value) behind in
    let sum = length-append s (crlf ++ rest) in
    let sum' = length-append value crlf in
    let ends =
      find_crlf-append (encode_bulk_string value) behind _
        (find_crlf-cons b'$' (s ++ (crlf ++ rest)) _ refl (find_crlf-digits s rest digits)) in
    let number : strtol ((s ++ (crlf ++ rest)) ++ behind) ≡ pos (length value) =
      ap strtol (append_assoc s (crlf ++ rest) behind)
      ∙ strtol-digits s (10 ∷ (rest ++ behind)) (length value) digits
          (parse-to_string (length value) fits) in
    verdict-bulk _ ∙ rw (ends, header_verdict, number) (ground arith)

pub reply-behind : (r behind : Bytes) → IsReply r → verdict (r ++ behind) ≡ whole
unfolding verdict line_verdict header_verdict bulk_verdict encode_null_bulk_string find_crlf strtol
    signed_number leading_digits
reply-behind _ behind (line type s known ends) =
    verdict-is_line type ((s ++ crlf) ++ behind) known
    ∙ rw (find_crlf-append (type ∷ (s ++ crlf)) behind _ ends, line_verdict) refl
reply-behind _ behind (bulk value fits) = bulk-behind value behind fits
reply-behind _ behind null = refl

-- The start of a reply with something behind it.
pub reply-start :
    (r p u behind : Bytes)
    → IsReply r
    → p ++ u ≡ r ++ behind
    → length p < length r
    → verdict p ≡ more
reply-start r p u behind reply same short =
    let starts : p ≡ take (length p) r =
      sym (take-length-append p u)
      ∙ ap (take (length p)) same
      ∙ take-append (length p) r behind (omega arith) in
    let left = length-drop (length p) r in
    let joins : p ++ drop (length p) r ≡ r =
      ap (λ x. x ++ drop (length p) r) starts ∙ take-drop (length p) r in
    reply-part r p (drop (length p) r) reply joins ∙ ground arith
