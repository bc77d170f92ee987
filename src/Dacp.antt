-- ===== src/Dacp.antt =====
-- fdc3/desktop_agent/handlers/dacp: the handlers of the messages that applications send.
pub mod Agent
pub mod Defaults
pub mod Events
pub mod Guards
pub mod UserChannels
pub mod PrivateChannels
pub mod Channels
pub mod Listening
pub mod Raising
pub mod Apps
pub mod Finding
