-- ===== src/Controller.antt =====
-- pkg/controller/hawtio: the reconciler, in terms of the operations of a cluster.
pub mod Crypto
pub mod Cluster
pub mod Issue
pub mod Lifecycle
pub mod Certificate
pub mod Defaults
pub mod Reconcile
pub mod Status
pub mod Run
pub mod Watches
pub mod Timers
pub mod Rotation
