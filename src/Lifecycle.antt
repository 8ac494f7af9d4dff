-- ===== src/Lifecycle.antt =====
-- The life of one VPSieNode: pkg/controller/vpsienode, with the API errors that it classifies.
pub mod Errors
pub mod Types
pub mod Env
pub mod Provisioner
pub mod Joiner
pub mod Terminator
pub mod Drainer
pub mod Discoverer
pub mod Phases
pub mod Reconciler
pub mod Edges
pub mod Creation
pub mod Deletion
pub mod Conditions
pub mod Labels
pub mod Failures
mod Tests
