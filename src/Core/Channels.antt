-- ===== src/Core/Channels.antt =====
-- The channel manager: channel_manager.py, channel_types.py, channel_context.py, channel_events.py.
pub mod State
pub mod Events
pub mod Contexts
pub mod Membership
pub mod Private
pub mod Remote
pub mod Views
pub mod Teardown
pub mod Steps
pub mod Invariant
pub mod Removal
pub mod Invites
pub mod Recall
pub mod Numbers
pub mod Subscriptions
pub mod Moving
pub mod Emission
pub mod Guarding
pub mod Guarded
pub mod Agents
mod Tests
