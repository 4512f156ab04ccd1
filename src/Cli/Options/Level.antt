-- ===== src/Cli/Options/Level.antt =====
-- The log level of `parse_args` of src/cli/options.cpp, which src/main.cpp reads again.
use cpp_kv_store.Base.{
  ℕ, Bytes, true, none, some, List, [], ◌∷◌, bytes_eq, codes, ◌≡◌, ◌≢◌, refl, sym, subst, ◌∙◌,
  Bool-cases, Option-cases, inl, inr,
}
use cpp_kv_store.Cli.Options.{
  ServerOptions, default_options, LogLevel, valid, unsigned_value, parse_unsigned, to_lower_char,
  level_of, parse_level, is_help, is_version, takes_value, set_option, parse_from, parse_args,
}
use cpp_kv_store.Cli.Options.Sequence.{Checked-cases, valid_injective}

-- What a valid option leaves is either the level before, or a value that parses.
abbrev HasLevel : ServerOptions → Type 0
HasLevel options = parse_level options.log_level ≢ none

parse_unsigned-level :
    (bits : ℕ) (arg value : Bytes) (f : ℕ → ServerOptions) (to : ServerOptions)
    → ((n : ℕ) → HasLevel (f n))
    → parse_unsigned bits arg value f ≡ valid to
    → HasLevel to
unfolding parse_unsigned
parse_unsigned-level bits arg value f to all h = elim (Option-cases (unsigned_value bits value)) [
  | inl e ↦ (let k = (rw (e, parse_unsigned) at h) in cc)
  | inr (n, e) ↦ subst HasLevel (valid_injective (rw (e, parse_unsigned) at h)) (all n)
]

set_option-level :
    (arg value : Bytes) (options to : ServerOptions)
    → HasLevel options
    → set_option arg value options ≡ valid to
    → HasLevel to
unfolding set_option
set_option-level arg value options to l h = elim (Bool-cases (bytes_eq arg (codes "--bind"))) [
  | inl e ↦ subst HasLevel (valid_injective (rw e at h)) l
  | inr e ↦ elim (Bool-cases (bytes_eq arg (codes "--port"))) [
    | inl f ↦ parse_unsigned-level _ arg value _ to (λ n. l) (rw (e, f) at h)
    | inr f ↦ elim (Bool-cases (bytes_eq arg (codes "--workers"))) [
      | inl g ↦ parse_unsigned-level _ arg value _ to (λ n. l) (rw (e, f, g) at h)
      | inr g ↦ elim (Bool-cases (bytes_eq arg (codes "--shards"))) [
        | inl i ↦ parse_unsigned-level _ arg value _ to (λ n. l) (rw (e, f, g, i) at h)
        | inr i ↦ elim (Bool-cases (bytes_eq arg (codes "--queue-capacity"))) [
          | inl j ↦ parse_unsigned-level _ arg value _ to (λ n. l) (rw (e, f, g, i, j) at h)
          | inr j ↦ elim (Option-cases (parse_level value)) [
            | inl none_there ↦ (let k = (rw (e, f, g, i, j, none_there) at h) in cc)
            | inr (level, there) ↦
                subst HasLevel (valid_injective (rw (e, f, g, i, j, there) at h))
                  (λ lost. (let k = sym there ∙ lost in cc))
          ]
        ]
      ]
    ]
  ]
]

parse_from-level :
    (args : List Bytes) (options to : ServerOptions)
    → HasLevel options
    → parse_from args options ≡ valid to
    → HasLevel to
unfolding parse_from
parse_from-level [] options to l h = subst HasLevel (valid_injective h) l
parse_from-level (arg ∷ []) options to l h = elim (Bool-cases (is_help arg)) [
  | inl e ↦ subst HasLevel (valid_injective (rw e at h)) l
  | inr e ↦ elim (Bool-cases (is_version arg)) [
    | inl f ↦ subst HasLevel (valid_injective (rw (e, f) at h)) l
    | inr f ↦ elim (Bool-cases (takes_value arg)) [
      | inl g ↦ (let k = (rw (e, f, g) at h) in cc)
      | inr g ↦ (let k = (rw (e, f, g) at h) in cc)
    ]
  ]
]
parse_from-level (arg ∷ value ∷ args) options to l h = elim (Bool-cases (is_help arg)) [
  | inl e ↦ parse_from-level (value ∷ args) (record options { show_help = true }) to l (rw e at h)
  | inr e ↦ elim (Bool-cases (is_version arg)) [
    | inl f ↦
        parse_from-level (value ∷ args) (record options { show_version = true }) to l
          (rw (e, f) at h)
    | inr f ↦ elim (Bool-cases (takes_value arg)) [
      | inl g ↦ elim (Checked-cases (set_option arg value options)) [
        | inl (o, k) ↦
            parse_from-level args o to (set_option-level arg value options o l k)
              (rw (e, f, g, k) at h)
        | inr (message, k) ↦ (let n = (rw (e, f, g, k) at h) in cc)
      ]
      | inr g ↦ (let k = (rw (e, f, g) at h) in cc)
    ]
  ]
]

default_level : parse_level default_options.log_level ≡ some LogLevel.info
unfolding parse_level level_of to_lower_char
default_level = refl

-- The log level of options that are accepted is one that `parse_level` reads.
pub parse_args-level :
    (args : List Bytes) (options : ServerOptions)
    → parse_args args ≡ valid options
    → parse_level options.log_level ≢ none
unfolding parse_args
parse_args-level args options h =
    parse_from-level args default_options options
      (λ none_there. (let k = sym default_level ∙ none_there in cc)) h
