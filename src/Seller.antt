-- ===== src/Seller.antt =====
-- internal/seller: the sellers of this node.
pub mod Registry
pub mod Sandbox
pub mod Engines
pub mod Inference
mod Examples
