-- ===== src/Chat.antt =====
-- The chat state of the web client: web/src/core/state/ChatContext.tsx.
pub mod State
pub mod Storage
pub mod Merge
pub mod Detect
pub mod Agent
pub mod Receive
pub mod Reducer
pub mod Io
pub mod Provider
pub mod Opening
pub mod Frame
pub mod Bounds
pub mod Stream
pub mod Reply
pub mod Dedup
pub mod Permission
pub mod Turn
pub mod Lists
pub mod Sync
pub mod Reload
pub mod Flush
pub mod Sample
mod Tests
