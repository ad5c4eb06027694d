-- ===== src/Executor.antt =====
-- The executor (pkg/driver/executor): the requests of the machine controller as sequences of
-- calls to OpenStack.
pub mod Defs
pub mod Utils
pub mod Networks
pub mod Wait
pub mod Deploy
pub mod Patch
pub mod Find
pub mod Delete
pub mod Create
pub mod Safety
pub mod Respects
pub mod Store
