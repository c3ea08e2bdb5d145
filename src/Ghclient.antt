-- ===== src/Ghclient.antt =====
-- internal/ghclient: the parts of the GitHub client that keep state of their own.
pub mod EtagCache
pub mod RateLimiter
