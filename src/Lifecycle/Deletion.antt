-- ===== src/Lifecycle/Deletion.antt =====
-- How an object and its machine are removed.
pub mod Metadata
pub mod Release
pub mod Evidence
pub mod Progress
pub mod Completion
pub mod Unnamed
pub mod Requested
pub mod Leaks
