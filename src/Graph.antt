-- ===== src/Graph.antt =====
-- backend/agent/app/graph: the deterministic nodes of the agent's graph and its routing.
pub mod Answer
pub mod Attribution
pub mod Citations
pub mod Figures
pub mod Ground
pub mod Prompt
pub mod Reply
pub mod Tools
pub mod Run
pub mod State
pub mod Guard
pub mod Confirm
pub mod Confidence
pub mod History
mod Tests
