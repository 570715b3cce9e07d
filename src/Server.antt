-- ===== src/Server.antt =====
-- main.rs, network_callbacks.rs and setup.rs: the parts around the shared queue.
pub mod Discovery
pub mod Gossip
pub mod Sockets
pub mod Joining
pub mod Session
pub mod Setup
pub mod Startup
