-- ===== src/Driver.antt =====
-- The driver (pkg/driver): the requests of the machine controller, checked, run by an executor
-- made for the request, and answered with a status.
pub mod Defs
pub mod Requests
pub mod Volumes
pub mod Migrate
pub mod Conversion
pub mod Laws
