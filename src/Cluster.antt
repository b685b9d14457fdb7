-- ===== src/Cluster.antt =====
-- What surrounds the controllers: the Kubernetes API behind controller-runtime's client, Compute
-- Engine behind its Go library, the clock. None of it is code of the repository, so each call is a
-- field of a parameter, which may answer anything; what a program writes is kept in a trace.
pub mod Steps
pub mod Errors
pub mod Events
pub mod Prog
pub mod Client
pub mod Cloud
pub mod Env
pub mod Hoare
pub mod Extends
