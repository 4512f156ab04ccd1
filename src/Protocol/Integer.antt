-- ===== src/Protocol/Integer.antt =====
-- `parse_nonnegative_integer` of src/protocol/parser.cpp, and std::to_string on nonnegative values.
pub mod RoundTrip
use cpp_kv_store.Base.{
  ℕ, zero, suc, ◌+◌, ◌-◌, ◌*◌, ◌/◌, ◌%◌, ◌^◌, Bytes, Bool, ◌||◌, Option, none, some, [], ◌∷◌, ltb,
  if◌then◌else◌,
}

-- std::numeric_limits<std::int64_t>::max()
abbrev pub int64_max : ℕ
int64_max = 2 ^ 63 - 1

-- A byte from 128 on is a negative `char`; it is refused here as no digit, as `c < '0'` refuses it.
abbrev pub not_digit : ℕ → Bool
not_digit c = ltb c b'0' || ltb b'9' c

-- The loop over the characters. The test keeps `value * 10 + digit` within int64_t.
unfoldable pub parse_digits : Bytes → ℕ → Option ℕ
parse_digits [] value = some value
parse_digits (c ∷ text) value =
    let digit = c - b'0' in
    if not_digit c
    then none
    else if ltb ((int64_max - digit) / 10) value
    then none
    else parse_digits text (value * 10 + digit)

unfoldable pub parse_nonnegative_integer : Bytes → Option ℕ
unfolding parse_digits
parse_nonnegative_integer [] = none
parse_nonnegative_integer (c ∷ text) = parse_digits (c ∷ text) 0

-- The decimal digits of `n` in front of `out`; the fuel is above `n`, which falls each round.
unfoldable pub decimal : ℕ → ℕ → Bytes → Bytes
decimal zero n out = out
decimal (suc fuel) n out =
    let here = (b'0' + n % 10) ∷ out in
    elim (n / 10) [ zero ↦ here | suc q ↦ decimal fuel (suc q) here ]

unfoldable pub to_string : ℕ → Bytes
unfolding decimal
to_string n = decimal (suc n) n []
