-- ===== src/Scaler.antt =====
-- The scale-down decisions: pkg/scaler.
pub mod Scheduling
pub mod Policy
pub mod Safety
pub mod Removal
pub mod Utilization
pub mod Manager
pub mod Drain
mod Tests
