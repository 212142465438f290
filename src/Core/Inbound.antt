-- ===== src/Core/Inbound.antt =====
-- core/inbound.go: the inbound that Xray is given for a node.
pub mod Types
pub mod Protocols
pub mod Build
pub mod Plain
pub mod Security
pub mod Panics
pub mod Tests
