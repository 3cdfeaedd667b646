-- ===== src/Manager.antt =====
-- cmd/manager/main.go and pkg/manager/manager.go: the operator's start.
pub mod Settings
pub mod Cache
pub mod Poller
pub mod Clients
pub mod Options
pub mod Build
pub mod Main
pub mod Registers
pub mod Interval
