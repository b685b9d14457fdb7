-- ===== src/Tests.antt =====
-- Concrete surroundings and objects, and the theorems applied to them.
pub mod Objects
pub mod Clouds
pub mod Runs
pub mod Systems
pub mod Stores
pub mod Prefixes
pub mod Owners
pub mod Process
pub mod Restores
pub mod Places
pub mod Preemptions
pub mod Joining
pub mod Replicas
pub mod Departures
pub mod Deletions
