-- ===== src/Auth.antt =====
-- internal/auth: where a provider gets its upstream token from.
pub mod RoundRobin
pub mod OAuth
