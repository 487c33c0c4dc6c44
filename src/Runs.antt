-- ===== src/Runs.antt =====
-- A run from the worker that answers it (backend/agent/app/worker.py) over the queue that carries
-- its events to the gateway that collects them (backend/gateway/app/main.py).
pub mod Events
pub mod Worker
pub mod Gateway
pub mod Chat
mod Tests
