-- ===== src/Breaker.antt =====
-- internal/breaker: the circuit breaker and the rate limiter.
pub mod Circuit
pub mod Limiter
