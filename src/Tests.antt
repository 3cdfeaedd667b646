-- ===== src/Tests.antt =====
-- Examples of the theorems at concrete inputs.
mod Samples
mod Controller
mod Reconcile
mod Manager
mod Resources
mod Objects
mod Completes
mod Memory
mod Rotation
mod Watches
