-- ===== src/Queue.antt =====
-- shar/core/queue.rs.
pub mod State
pub mod Ide
pub mod Network
pub mod Wrap
pub mod Quiet
pub mod Paths
pub mod Replicas
pub mod Received
pub mod Removals
