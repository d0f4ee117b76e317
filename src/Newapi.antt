-- ===== src/Newapi.antt =====
-- adapter/newapi: the single exit to new-api, its circuit breaker, its retries and its errors.
pub mod Breaker
pub mod Classify
pub mod Client
mod Tests
