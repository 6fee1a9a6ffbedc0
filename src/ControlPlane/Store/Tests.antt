-- ===== src/ControlPlane/Store/Tests.antt =====
-- Runs of the store's operations on small inputs.
pub mod JobRuns
pub mod ApprovalRuns
pub mod ObjectRuns
pub mod CatalogueRuns
