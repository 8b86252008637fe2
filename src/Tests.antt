-- ===== src/Tests.antt =====
-- Runs of the definitions, and the theorems at concrete inputs.
pub mod Clients
pub mod Connection
pub mod Descriptors
pub mod Drivers
pub mod Parts
pub mod Serving
pub mod Sockets
pub mod Samples
pub mod Settings
pub mod StaticFiles
pub mod Storage
