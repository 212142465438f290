-- ===== src/Core.antt =====
-- The core package: what v2node adds around an Xray instance.
pub mod Traffic
pub mod Accounts
pub mod Users
pub mod Inbound
pub mod Routes
pub mod Tests
pub mod Nodes
