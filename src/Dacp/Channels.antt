-- ===== src/Dacp/Channels.antt =====
-- The requests of handlers/dacp/channel.py, and what holds of their handlers.
pub mod Cases
pub mod Requests
pub mod Responses
pub mod Replies
pub mod Errors
pub mod Refusals
pub mod Services
pub mod Keeping
pub mod Access
pub mod Bridged
mod Tests
