-- ===== src/Bridge.antt =====
-- bridging/router.py: the requests and events that other desktop agents send over the bridge.
mod Requests
mod Answers
mod Events
mod Routing
mod Naming
mod Written
mod Results
mod Identifiers
mod Typing
mod Updates
mod Delivery
mod Hiding
mod Tests
