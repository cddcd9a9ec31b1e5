-- ===== src/Security.antt =====
-- quickapi/security: the rate limiter, the request guard and bearer tokens.
pub mod RateLimit
pub mod Guard
pub mod Tokens
