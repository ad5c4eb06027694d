-- ===== src/Tests.antt =====
-- A small cloud and configuration, and the theorems of the other modules at these.
pub mod World
pub mod Finding
pub mod Machines
pub mod Checks
pub mod Requests
pub mod Clients
pub mod Endings
pub mod StoreCloud
pub mod StoreRuns
pub mod StoreRequests
pub mod StoreApi
pub mod Copies
pub mod Starting
pub mod Logging
