-- ===== src/Client.antt =====
-- The client object: its connection state and the namespace array of the server.
pub mod State
pub mod Events
pub mod Follow
pub mod Guards
pub mod Faults
pub mod Resolve
