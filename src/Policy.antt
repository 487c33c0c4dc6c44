-- ===== src/Policy.antt =====
-- backend/libs/policy/rules.py: the figures that a policy states, and what they make a claim pay.
pub mod Money
pub mod Governing
pub mod Extract
pub mod Settlement
mod Tests
