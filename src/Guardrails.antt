-- ===== src/Guardrails.antt =====
-- backend/libs/guardrails: the checks of a message that need no model.
pub mod Screen
pub mod Vocabulary
pub mod Normalize
pub mod Amounts
pub mod Json
pub mod Markers
pub mod Markdown
pub mod Response
mod Tests
