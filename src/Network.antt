-- ===== src/Network.antt =====
-- internal/network: how a node reaches its peers.
pub mod Connections
pub mod Router
pub mod HolePunch
mod Examples
