-- ===== src/Net.antt =====
-- The network layer: src/net and include/kvstore/net.
pub mod BoundedBuffer
pub mod ResponseSequencer
pub mod ConnectionRegistry
pub mod Io
pub mod FileDescriptor
pub mod Listener
pub mod Wakeup
pub mod EventLoop
