-- ===== src/Auth.antt =====
-- internal/auth: cookies, the CSRF check, session tokens, the middlewares and the login handlers.
pub mod Cookies
pub mod Csrf
pub mod Tokens
pub mod Guards
pub mod Auditing
pub mod Local
pub mod Oidc
mod Tests
