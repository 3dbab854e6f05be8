-- ===== src/Nodes.antt =====
-- The nodes of the client library: what a node caches, what it asks of its backend, and how the
-- backend's results get to it.
pub mod Node
pub mod Requests
pub mod Handles
pub mod Dispatch
pub mod Fresh
pub mod Cache
pub mod Observer
pub mod Mirror
