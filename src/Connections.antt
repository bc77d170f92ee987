-- ===== src/Connections.antt =====
-- handlers/connection_manager.py and server/connection_manager.py: the open connections of
-- application instances and of agent clients.
pub mod Instances
pub mod Clients
pub mod Closing
pub mod Reconnecting
mod Tests
