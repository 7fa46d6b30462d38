-- ===== src/Phone.antt =====
-- What the phone shows of a session: mobile/src/stores/useMessageStore.ts and
-- mobile/src/components/terminal/groupMessages.ts.
pub mod Store
pub mod Shown
pub mod Groups
pub mod Terminal
pub mod Link
pub mod Setup
pub mod Cards
mod Tests
