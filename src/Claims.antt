-- ===== src/Claims.antt =====
-- Claims: the contracts (backend/libs/contracts/claims.py), the stores (backend/libs/adapters) and
-- the tools that the model calls (backend/agent/app/tools/claims.py).
pub mod Contracts
pub mod Repository
pub mod Tools
mod Tests
