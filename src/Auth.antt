-- ===== src/Auth.antt =====
-- shaperail-runtime/src/auth: role checks, the request's subject, and rate limiting keys.
pub mod Rbac
pub mod Extractor
pub mod Subject
pub mod RateLimit
