-- ===== src/Session.antt =====
-- internal/session: the saved session.
pub mod Store
