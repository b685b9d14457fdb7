-- ===== src/Gcp.antt =====
-- internal/gcp: the client of Compute Engine.
pub mod Provisioner
pub mod Reads
pub mod Waiting
pub mod Confirmed
pub mod NodeJoiner
