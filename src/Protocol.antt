-- ===== src/Protocol.antt =====
-- The protocol component: src/protocol and include/kvstore/protocol.
pub mod Command
pub mod Integer
pub mod Line
pub mod Frame
pub mod Build
pub mod Serializer
pub mod Parser
