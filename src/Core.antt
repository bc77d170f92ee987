-- ===== src/Core.antt =====
-- The services of fdc3/desktop_agent/core.
pub mod Channels
pub mod Listeners
pub mod Apps
pub mod External
pub mod Intents
pub mod Routing
pub mod Pending
