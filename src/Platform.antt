-- ===== src/Platform.antt =====
-- app/platform: the circuit breaker, the rate limiter, guarded requests and the cache.
pub mod Breaker
pub mod RateLimit
pub mod Upstream
pub mod Swr
