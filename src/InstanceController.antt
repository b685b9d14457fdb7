-- ===== src/InstanceController.antt =====
-- internal/controller/provisionedinstance_controller.go: one VM from its creation to its deletion.
pub mod Fetch
pub mod Status
pub mod Provision
pub mod Deletion
pub mod Reconcile
pub mod Mirror
pub mod Stable
pub mod Guard
pub mod Report
pub mod Creation
pub mod Notice
pub mod Watch
pub mod Departure
