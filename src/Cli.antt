-- ===== src/Cli.antt =====
-- The command line: src/cli and include/kvstore/cli.
pub mod Options
