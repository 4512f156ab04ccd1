-- ===== src/Worker.antt =====
-- The worker layer: src/worker and include/kvstore/worker.
pub mod BoundedQueue
pub mod Items
pub mod Pool
