-- ===== src/Cards.antt =====
-- The cards of a tool in the browser: web/src/features/terminal/cards/ToolUseCard.tsx and
-- ToolResultCard.tsx.
pub mod Use
pub mod Result
mod Tests
