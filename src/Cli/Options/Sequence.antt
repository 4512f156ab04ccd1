-- ===== src/Cli/Options/Sequence.antt =====
-- `parse_args` and `parse_unsigned` of src/cli/options.cpp.
use cpp_kv_store.Base.{
  ℕ, ◌<◌, ◌^◌, Bytes, true, some, List, [], ◌∷◌, ◌++◌, ltb, ◌≡◌, ◌≢◌, refl, sym, ap, ◌∙◌, ltb_of_lt,
  arith, Bool-cases, inl, inr, ◌⊎◌,
}
use cpp_kv_store.Protocol.Integer.RoundTrip.{AllDigits, spelled}
use cpp_kv_store.Cli.Options.{
  ServerOptions, Checked, valid, invalid_argument, take_digits, number_of_digits, whole_number,
  unsigned_value, is_help, is_version, takes_value, set_option, parse_from,
}

take_digits-AllDigits : (s : Bytes) → AllDigits s → take_digits s ≡ (s, [])
unfolding take_digits
take_digits-AllDigits [] h = refl
take_digits-AllDigits (c ∷ s) h = ground (arith, take_digits-AllDigits s h.1)

AllDigits-take_digits : (s : Bytes) → (take_digits s).1 ≡ [] → AllDigits s
unfolding take_digits
AllDigits-take_digits [] h = tt
AllDigits-take_digits (c ∷ s) h = ground (arith, AllDigits-take_digits s)

unsigned_sound :
    (bits : ℕ) (s : Bytes) (r : ℕ)
    → unsigned_value bits s ≡ some r
    → (s ≢ []) × AllDigits s × (r ≡ spelled s 0) × (r < 2 ^ bits)
unfolding unsigned_value number_of_digits whole_number
unsigned_sound bits s r h = split (take_digits s) refl h
  where
    split :
        (p : Bytes × Bytes)
        → take_digits s ≡ p
        → whole_number (number_of_digits bits p) ≡ some r
        → (s ≢ []) × AllDigits s × (r ≡ spelled s 0) × (r < 2 ^ bits)
    split ([], rest) e g = cc
    split (c ∷ digits, []) e g =
        let all = AllDigits-take_digits s (ap (λ (p : Bytes × Bytes). p.1) e) in
        let same : s ≡ c ∷ digits =
          ap (λ (p : Bytes × Bytes). p.0) (sym (take_digits-AllDigits s all) ∙ e) in
        elim (Bool-cases (ltb (spelled (c ∷ digits) 0) (2 ^ bits))) [
          | inl fits ↦
              let value : spelled (c ∷ digits) 0 ≡ r = (let k = (rw fits at g) in cc) in
              let spells = ap (λ t. spelled t 0) same in
              (
                λ empty. (let k = sym same ∙ empty in cc),
                all,
                sym value ∙ sym spells,
                ground (arith, value),
              )
          | inr big ↦ (let k = (rw big at g) in cc)
        ]
    split (c ∷ digits, d ∷ rest) e g = elim (Bool-cases (ltb (spelled (c ∷ digits) 0) (2 ^ bits))) [
      | inl fits ↦ (let k = (rw fits at g) in cc)
      | inr big ↦ (let k = (rw big at g) in cc)
    ]

unsigned_complete :
    (bits : ℕ) (s : Bytes)
    → s ≢ []
    → AllDigits s
    → spelled s 0 < 2 ^ bits
    → unsigned_value bits s ≡ some (spelled s 0)
unfolding unsigned_value number_of_digits whole_number
unsigned_complete bits [] some_digit h fits = absurd (some_digit refl)
unsigned_complete bits (c ∷ s) some_digit h fits =
    let all = take_digits-AllDigits (c ∷ s) h in
    let inside = ltb_of_lt _ _ fits in rw (all, inside) refl

pub valid_injective : {A : Type 0} {a b : A} → valid a ≡ valid b → a ≡ b
valid_injective h = cc

pub Checked-cases :
    {A : Type 0} (r : Checked A)
    → ((a : A) × (r ≡ valid a)) ⊎ ((message : Bytes) × (r ≡ invalid_argument message))
Checked-cases (valid a) = inl (a, refl)
Checked-cases (invalid_argument message) = inr (message, refl)

-- An unsigned option of so many bits accepts a text, with the result r, exactly when the text is not
-- empty, holds digits alone, and spells r, which fits the type.
pub unsigned_value_iff :
    (bits : ℕ) (s : Bytes) (r : ℕ)
    → (unsigned_value bits s ≡ some r → (s ≢ []) × AllDigits s × (r ≡ spelled s 0) × (r < 2 ^ bits))
      × ((s ≢ []) × AllDigits s × (r ≡ spelled s 0) × (r < 2 ^ bits)
          → unsigned_value bits s ≡ some r)
unsigned_value_iff bits s r = (
  unsigned_sound bits s r,
  λ h. unsigned_complete bits s h.0 h.1 (omega (arith, h.2, h.3)) ∙ ap some (sym h.2),
)

-- Options in front that are valid on their own do not change how those behind them are read: they
-- are read from the options that the ones in front set.
pub parse_from-append :
    (first second : List Bytes) (options options' : ServerOptions)
    → parse_from first options ≡ valid options'
    → parse_from (first ++ second) options ≡ parse_from second options'
unfolding parse_from
parse_from-append [] second options options' h = ap (parse_from second) (valid_injective h)
parse_from-append (arg ∷ []) [] options options' h = h
parse_from-append (arg ∷ []) (b ∷ second) options options' h = elim (Bool-cases (is_help arg)) [
  | inl e ↦ rw e (ap (parse_from (b ∷ second)) (valid_injective (rw e at h)))
  | inr e ↦ elim (Bool-cases (is_version arg)) [
    | inl f ↦ rw (e, f) (ap (parse_from (b ∷ second)) (valid_injective (rw (e, f) at h)))
    | inr f ↦ elim (Bool-cases (takes_value arg)) [
      | inl g ↦ (let k = (rw (e, f, g) at h) in cc)
      | inr g ↦ (let k = (rw (e, f, g) at h) in cc)
    ]
  ]
]
parse_from-append (arg ∷ value ∷ args) second options options' h = elim (Bool-cases (is_help arg)) [
  | inl e ↦ rw e (
      parse_from-append (value ∷ args) second (record options { show_help = true }) options'
        (rw e at h))
  | inr e ↦ elim (Bool-cases (is_version arg)) [
    | inl f ↦
        rw (e, f)
          (parse_from-append (value ∷ args) second (record options { show_version = true }) options'
            (rw (e, f) at h))
    | inr f ↦ elim (Bool-cases (takes_value arg)) [
      | inl g ↦ elim (Checked-cases (set_option arg value options)) [
        | inl (o, k) ↦
            rw (e, f, g, k) (parse_from-append args second o options' (rw (e, f, g, k) at h))
        | inr (message, k) ↦ (let l = (rw (e, f, g, k) at h) in cc)
      ]
      | inr g ↦ (let k = (rw (e, f, g) at h) in cc)
    ]
  ]
]
