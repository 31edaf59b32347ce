-- ===== src/Auth.antt =====
-- internal/auth: the rate limiter, and the eviction policy it is given.
pub mod RateLimit
