-- ===== src/Rpc.antt =====
-- The WebSocket clients that pair requests with responses: web/src/core/ws/ws-client.ts and the client
-- of mobile/src/screens/TerminalScreen.tsx.
pub mod Calls
pub mod Ledger
pub mod Conservation
pub mod Rejection
pub mod Answer
pub mod Reconnect
pub mod Web
pub mod Terminal
pub mod Mobile
pub mod Mock
pub mod Relay
mod Sample
mod Tests
