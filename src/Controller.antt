-- ===== src/Controller.antt =====
-- pkg/controllers/gateway/controller.go: the reconciliation of a Gateway.
pub mod Client
pub mod Run
pub mod Zero
pub mod Equality
pub mod Objects
pub mod Status
pub mod Leader
pub mod Commit
pub mod Reconcile
pub mod Settled
pub mod Repeat
pub mod Present
pub mod Converge
pub mod Footprint
pub mod Returns
