-- ===== src/Broker.antt =====
-- src/pyka/broker: a broker over its topics, and the wake-up of consumers.
pub mod Tail
pub mod Store
pub mod Messages
pub mod Handler
pub mod Admin
pub mod Server
mod Tests
pub mod HandlerTests
mod AdminTests
