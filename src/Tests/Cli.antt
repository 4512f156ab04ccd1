-- ===== src/Tests/Cli.antt =====
-- The command line.
use cpp_kv_store.Base.{Bytes, true, List, [], ◌∷◌, ◌++◌, ◌≡◌, refl, codes}
use cpp_kv_store.Cli.Options.{
  info, warn, error, ServerOptions, valid, invalid_argument, default_options, take_digits,
  number_of_digits, whole_number, unsigned_value, parse_unsigned, parse_level, level_of,
  to_lower_char, is_help, is_version, takes_value, set_option, parse_from, parse_args,
}
use cpp_kv_store.Logger.{log}
use cpp_kv_store.Cli.Options.Sequence.{parse_from-append}

abbrev port_args : List Bytes
port_args = codes "--port" ∷ codes "7000" ∷ codes "--help" ∷ []

abbrev with_port : ServerOptions
with_port = record default_options { port = 7000; show_help = true }

port_test : parse_from port_args default_options ≡ valid with_port
unfolding parse_from is_help is_version takes_value set_option parse_unsigned unsigned_value
    take_digits number_of_digits whole_number
port_test = refl

too_large_test :
    parse_args (codes "--port" ∷ codes "65536" ∷ [])
    ≡ invalid_argument (codes "invalid value for --port: '65536'")
unfolding parse_args parse_from is_help is_version takes_value set_option parse_unsigned
    unsigned_value take_digits number_of_digits whole_number
too_large_test = refl

level_test :
    parse_args (codes "--log-level" ∷ codes "WARNING" ∷ [])
    ≡ valid (record default_options { log_level = codes "WARNING" })
unfolding parse_args parse_from is_help is_version takes_value set_option parse_level level_of
    to_lower_char
level_test = refl

parse_from-append_example :
    parse_from (port_args ++ codes "--shards" ∷ codes "8" ∷ []) default_options
    ≡ parse_from (codes "--shards" ∷ codes "8" ∷ []) with_port
parse_from-append_example =
    parse_from-append port_args (codes "--shards" ∷ codes "8" ∷ []) default_options with_port
      port_test

-- At the level of warnings one of two calls writes its line.
log_test :
    log warn
      (record { timestamp = codes "now"; level = error; message = codes "b" })
      (log warn (record { timestamp = codes "now"; level = info; message = codes "a" }) [])
    ≡ codes "[now] [ERROR] b" ++ 10 ∷ []
unfolding log
log_test = refl
