-- ===== src/Api.antt =====
-- The custom resources of api/v1alpha1, and the fields that the controllers read of the Kubernetes
-- and Compute Engine objects.
pub mod Meta
pub mod Template
pub mod Instance
pub mod Training
pub mod Kube
pub mod Compute
