-- ===== src/Auth.antt =====
-- internal/auth: where a sign-in may send its token.
pub mod Token
