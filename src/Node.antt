-- ===== src/Node.antt =====
-- The node package: the tasks that keep one node in step with the panel.
pub mod Diff
pub mod Sync
pub mod Monitor
pub mod Reporting
pub mod Tests
pub mod Fingerprints
pub mod Certificates
pub mod Lifecycle
pub mod Fleet
