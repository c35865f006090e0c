-- ===== src/Scheduler.antt =====
-- gateway/scheduler/scheduler.go: the function registry, the pool of instances and the leases.
pub mod Types
pub mod Register
pub mod Upload
pub mod Pool
pub mod Shrink
pub mod Lease
pub mod World
mod Tests
