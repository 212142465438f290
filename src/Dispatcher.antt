-- ===== src/Dispatcher.antt =====
-- core/app/dispatcher: what happens to each connection on its way to an outbound.
pub mod Links
pub mod Connect
pub mod Sniffer
pub mod Tests
pub mod Routing
