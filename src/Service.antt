-- ===== src/Service.antt =====
-- internal/service: the business logic over the repositories, the cache and the mailer.
pub mod Interfaces
pub mod Task
pub mod Team
pub mod Auth
pub mod Tokens
