-- ===== src/Protocol/Parser.antt =====
-- `parse_command` of src/protocol/parser.cpp.
pub mod Stream
pub mod Commands
use cpp_kv_store.Base.{ℕ, Bytes, true}
use cpp_kv_store.Protocol.Command.{Parse, ParseResult, complete, protocol_error, ◌>>=◌}
use cpp_kv_store.Protocol.Frame.{FrameArgs, read_multibulk_frame}
use cpp_kv_store.Protocol.Build.{CommandResult, command, semantic_error, build_command}

unfoldable pub result_of : CommandResult → ℕ → ParseResult
result_of (command c) consumed = complete (record { command = c; consumed_bytes = consumed })
result_of (semantic_error e) consumed = protocol_error (record {
  category = e.category;
  message = e.message;
  recoverable = true;
  consumed_bytes = consumed;
})

unfoldable pub parse_command : Bytes → ParseResult
parse_command input = do
  frame ← read_multibulk_frame input
  result_of (build_command frame.args) frame.consumed_bytes
