-- ===== src/Gds.antt =====
-- The client of a global discovery server: how an application registers, and gets its certificate
-- and trust list.
pub mod State
pub mod Start
pub mod Directory
pub mod Registration
pub mod Certificates
pub mod Events
pub mod Keeps
pub mod Invariant
pub mod StartKeeps
pub mod RegistrationKeeps
pub mod DirectoryKeeps
pub mod CertificatesKeeps
pub mod Reachable
pub mod Resolved
pub mod Calls
pub mod Timer
pub mod Dispatched
pub mod Serving
pub mod Finishing
pub mod Registers
pub mod Opening
pub mod Registered
pub mod Forgotten
