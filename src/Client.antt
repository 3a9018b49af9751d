-- ===== src/Client.antt =====
-- src/pyka/client.py: the client library, over a network that is a parameter.
pub mod Network
pub mod Connection
pub mod Producer
pub mod Consumer
pub mod Admin
mod Tests
mod AdminTests
