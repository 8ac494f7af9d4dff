-- ===== src/Lifecycle/Creation.antt =====
-- How often a machine is created for one object.
pub mod Requests
pub mod Handlers
pub mod Passes
pub mod Runs
pub mod Forgotten
