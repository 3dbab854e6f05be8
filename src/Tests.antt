-- ===== src/Tests.antt =====
-- Runs on concrete inputs, and the theorems at inputs that meet their hypotheses.
mod Encoding
mod NodeIds
mod Monitoring
mod MultiArray
mod Nodes
mod Client
mod Gds
mod Registered
