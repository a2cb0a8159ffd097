-- ===== src/Websocket.antt =====
-- v1/server_websocket.go: one websocket request.
pub mod State
pub mod Outgoing
pub mod Channel
pub mod Keeps
pub mod Reader
pub mod Operations
pub mod Handling
pub mod Invariant
pub mod Safety
pub mod Run
pub mod Samples
pub mod Progress
pub mod Replies
pub mod Stuck
pub mod Stopped
pub mod Acks
pub mod System
pub mod Accepting
pub mod Upgrade
mod Tests
