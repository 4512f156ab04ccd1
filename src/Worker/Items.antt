-- ===== src/Worker/Items.antt =====
-- include/kvstore/worker/work_item.hpp.
use cpp_kv_store.Base.{ℕ, Bytes}
use cpp_kv_store.Protocol.Command.{Command}

pub record WorkItem : Type 0 where
  pub connection_id : ℕ
  pub connection_generation : ℕ
  pub sequence : ℕ
  pub command : Command

pub record Completion : Type 0 where
  pub connection_id : ℕ
  pub connection_generation : ℕ
  pub sequence : ℕ
  pub response : Bytes
