-- ===== src/Controller/Reconcile.antt =====
-- pkg/controller/hawtio/reconcile_*.go: the reconciliation of each kind of object. What `CreateOrUpdate`
-- is given to change the object is a definition of its own, with a name in `…_mutated`.
pub mod Config
pub mod Deployment
pub mod Network
pub mod Security
pub mod Console
