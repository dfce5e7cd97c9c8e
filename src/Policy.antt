-- ===== src/Policy.antt =====
-- The policy controller (controllers/podplacementpolicy_controller.go).
pub mod Convert
pub mod RoundTrip
pub mod Resources
pub mod Apply
pub mod Status
pub mod Cleanup
pub mod Requests
pub mod Reconcile
pub mod Requeues
pub mod Asked
pub mod Disabled
pub mod Enforced
pub mod Matched
