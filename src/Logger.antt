-- ===== src/Logger.antt =====
-- `Logger::log` of src/util/logger.cpp, with `level_name`; each call is its section under the mutex.
-- The time as std::strftime writes it is an argument.
use cpp_kv_store.Base.{ℕ, Bytes, ltb, if◌then◌else◌, [], ◌∷◌, ◌++◌, codes}
use cpp_kv_store.Cli.Options.{LogLevel, debug, info, warn, error}

abbrev pub level_name : LogLevel → Bytes
level_name debug = codes "DEBUG"
level_name info = codes "INFO"
level_name warn = codes "WARN"
level_name error = codes "ERROR"

-- The order of the enumerators.
abbrev pub severity : LogLevel → ℕ
severity debug = 0
severity info = 1
severity warn = 2
severity error = 3

-- A call, with the time at which it is made.
pub record LogCall : Type 0 where
  pub timestamp : Bytes
  pub level : LogLevel
  pub message : Bytes

abbrev pub log_line : LogCall → Bytes
log_line call =
    codes "["
    ++ (call.timestamp
        ++ (codes "] [" ++ (level_name call.level ++ (codes "] " ++ (call.message ++ 10 ∷ [])))))

-- What is written to std::cerr behind what is there.
unfoldable pub log : LogLevel → LogCall → Bytes → Bytes
log min_level call output =
    if ltb (severity call.level) (severity min_level) then output else output ++ log_line call
