-- ===== src/TrainingController.antt =====
-- internal/controller/spotinstancejob_*.go: the replicas of a training job, their VMs and their
-- checkpoints.
pub mod Names
pub mod Marks
pub mod Checkpoints
pub mod Indices
pub mod Instances
pub mod Status
pub mod Jobs
pub mod Restore
pub mod Completed
pub mod Pods
pub mod Backup
pub mod Latest
pub mod Recreate
pub mod Preemption
pub mod Reconcile
