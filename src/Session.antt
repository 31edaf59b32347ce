-- ===== src/Session.antt =====
-- internal/session: the store of sessions.
pub mod MemoryStore
