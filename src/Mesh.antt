-- ===== src/Mesh.antt =====
-- internal/mesh: the node that joins a buyer with the control pane and the network.
pub mod Runtime
pub mod Examples
