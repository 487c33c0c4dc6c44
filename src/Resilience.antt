-- ===== src/Resilience.antt =====
-- backend/libs/resilience/policy.py and the call path of backend/agent/app/providers/resilient.py.
-- A reading of `time.monotonic()` is an argument, in ticks of a unit that the caller chooses.
pub mod Breaker
pub mod Retry
pub mod Fallback
pub mod Egress
mod Tests
