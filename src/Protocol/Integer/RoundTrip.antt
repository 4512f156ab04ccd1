-- ===== src/Protocol/Integer/RoundTrip.antt =====
-- `parse_nonnegative_integer` of src/protocol/parser.cpp against std::to_string and the numbers that
-- digits spell.
use cpp_kv_store.Base.{
  ℕ, zero, suc, ◌+◌, ◌-◌, ◌*◌, ◌/◌, ◌%◌, ◌^◌, ◌≤◌, ◌<◌, Bytes, some, [], ◌∷◌, ◌≡◌, ◌≢◌, refl, arith,
  length, inl, inr, ℕ-cases, ◌∙◌,
}
use native.Mathlib.Nat.{pow-suc}
use cpp_kv_store.Protocol.Integer.{
  int64_max, parse_digits, parse_nonnegative_integer, decimal, to_string,
}

abbrev pub IsDigit : ℕ → Type 0
IsDigit c = (b'0' ≤ c) × (c ≤ b'9')

abbrev pub AllDigits : Bytes → Type 0
AllDigits [] = Unit {0}
AllDigits (c ∷ s) = IsDigit c × AllDigits s

-- The number that the digits spell, with no bound.
abbrev pub spelled : Bytes → ℕ → ℕ
spelled [] n = n
spelled (c ∷ s) n = spelled s (n * 10 + (c - b'0'))

parse_digits_sound :
    (s : Bytes) (v r : ℕ)
    → v ≤ int64_max
    → parse_digits s v ≡ some r
    → AllDigits s × (r ≡ spelled s v) × (r ≤ int64_max)
unfolding parse_digits
parse_digits_sound [] v r fits h = ground arith
parse_digits_sound (c ∷ s) v r fits h = ground (arith, parse_digits_sound s (v * 10 + (c - b'0')) r)

le-spelled : (s : Bytes) (v : ℕ) → v ≤ spelled s v
le-spelled [] v = omega arith
le-spelled (c ∷ s) v = omega (arith, le-spelled s (v * 10 + (c - b'0')))

parse_digits_complete :
    (s : Bytes) (v : ℕ)
    → AllDigits s
    → spelled s v ≤ int64_max
    → parse_digits s v ≡ some (spelled s v)
unfolding parse_digits
parse_digits_complete [] v _ _ = refl
parse_digits_complete (c ∷ s) v (hc, hs) fits =
    let w = v * 10 + (c - b'0') in ground (arith, parse_digits_complete s w hs fits, le-spelled s w)

-- A text is accepted, with the result r, exactly when it is not empty, holds digits alone, and
-- spells r, which fits a signed 64-bit integer.
pub parse_nonnegative_integer_iff :
    (s : Bytes) (r : ℕ)
    → ((parse_nonnegative_integer s ≡ some r)
        → (s ≢ []) × AllDigits s × (r ≡ spelled s 0) × (r ≤ int64_max))
      × ((s ≢ []) × AllDigits s × (r ≡ spelled s 0) × (r ≤ int64_max)
          → parse_nonnegative_integer s ≡ some r)
unfolding parse_nonnegative_integer
parse_nonnegative_integer_iff [] r = (λ h. cc, λ h. absurd (h.0 refl))
parse_nonnegative_integer_iff (c ∷ s) r = (
  λ h.
      let sound = parse_digits_sound (c ∷ s) 0 r (omega arith) h in
      (λ e. cc, sound.0, sound.1, sound.2),
  λ h. rw h.2 (parse_digits_complete (c ∷ s) 0 h.1 (omega arith)),
)

-- The last round, and every other.
decimal_last : (f n : ℕ) (out : Bytes) → n / 10 ≡ 0 → decimal (suc f) n out ≡ (b'0' + n % 10) ∷ out
unfolding decimal
decimal_last f n out e = rw (e, decimal)

decimal_more :
    (f n q : ℕ) (out : Bytes)
    → n / 10 ≡ suc q
    → decimal (suc f) n out ≡ decimal f (suc q) ((b'0' + n % 10) ∷ out)
unfolding decimal
decimal_more f n q out e = rw (e, decimal)

decimal-AllDigits : (f n : ℕ) (out : Bytes) → AllDigits out → AllDigits (decimal f n out)
decimal-AllDigits zero n out h = unfold decimal in h
decimal-AllDigits (suc f) n out h = elim (ℕ-cases (n / 10)) [
  | inl e ↦ rw (decimal_last f n out e) (omega arith, h)
  | inr (q, e) ↦ rw (decimal_more f n q out e) (decimal-AllDigits f (suc q) _ (omega arith, h))
]

pub to_string-AllDigits : (n : ℕ) → AllDigits (to_string n)
unfolding to_string
to_string-AllDigits n = decimal-AllDigits (suc n) n [] tt

-- A number below 10 ^ (k + 1) has at most k + 1 digits.
length-decimal-le :
    (f n k : ℕ) (out : Bytes) → n < 10 ^ suc k → length (decimal f n out) ≤ suc k + length out
length-decimal-le zero n k out h = unfold decimal in omega arith
length-decimal-le (suc f) n zero out h = rw (decimal_last f n out (omega arith)) (omega arith)
length-decimal-le (suc f) n (suc k) out h = elim (ℕ-cases (n / 10)) [
  | inl e ↦ rw (decimal_last f n out e) (omega arith)
  | inr (q, e) ↦
      rw (decimal_more f n q out e)
        (omega (arith, length-decimal-le f (suc q) k _ (omega (arith, pow-suc 10 (suc k)))))
]

pub length-to_string-le : (n k : ℕ) → n < 10 ^ suc k → length (to_string n) ≤ suc k
unfolding to_string
length-to_string-le n k h = omega (arith, length-decimal-le (suc n) n k [] h)

decimal-ne-nil : (f n : ℕ) (out : Bytes) → decimal (suc f) n out ≢ []
decimal-ne-nil f n out = elim (ℕ-cases (n / 10)) [
  | inl e ↦ rw (decimal_last f n out e) (λ p. cc)
  | inr (q, e) ↦ rw (decimal_more f n q out e) (kept f (suc q) _ (λ p. cc))
]
  where
    kept : (g m : ℕ) (s : Bytes) → s ≢ [] → decimal g m s ≢ []
    kept zero m s h = unfold decimal in h
    kept (suc g) m s h = elim (ℕ-cases (m / 10)) [
      | inl e ↦ rw (decimal_last g m s e) (λ p. cc)
      | inr (q, e) ↦ rw (decimal_more g m q s e) (kept g (suc q) _ (λ p. cc))
    ]

to_string-ne-nil : (n : ℕ) → to_string n ≢ []
unfolding to_string
to_string-ne-nil n = decimal-ne-nil n n []

-- Reading the last digit of `n` behind the number that the others spell gives `n`.
parse_digits_last :
    (n : ℕ) (out : Bytes)
    → n ≤ int64_max
    → parse_digits ((b'0' + n % 10) ∷ out) (n / 10) ≡ parse_digits out n
unfolding parse_digits
parse_digits_last n out h = ground arith

parse_digits-decimal :
    (f n : ℕ) (out : Bytes)
    → n < f
    → n ≤ int64_max
    → parse_digits (decimal f n out) 0 ≡ parse_digits out n
parse_digits-decimal zero n out lt fits = absurd (omega arith)
parse_digits-decimal (suc f) n out lt fits = elim (ℕ-cases (n / 10)) [
  | inl e ↦ rw (decimal_last f n out e) (rw e at (parse_digits_last n out fits))
  | inr (q, e) ↦ rw (decimal_more f n q out e) (
      parse_digits-decimal f (suc q) _ (omega arith) (omega arith)
      ∙ rw e at (parse_digits_last n out fits))
]

parse_digits-of-ne-nil : (s : Bytes) → s ≢ [] → parse_nonnegative_integer s ≡ parse_digits s 0
unfolding parse_nonnegative_integer
parse_digits-of-ne-nil [] h = absurd (h refl)
parse_digits-of-ne-nil (c ∷ s) h = refl

-- Every nonnegative signed 64-bit integer is read back from its decimal print.
pub parse-to_string : (n : ℕ) → n ≤ int64_max → parse_nonnegative_integer (to_string n) ≡ some n
parse-to_string n fits =
    parse_digits-of-ne-nil (to_string n) (to_string-ne-nil n)
    ∙ (unfold to_string parse_digits in parse_digits-decimal (suc n) n [] (omega arith) fits)
