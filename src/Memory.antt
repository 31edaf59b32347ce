-- ===== src/Memory.antt =====
-- internal/memory: the stores of an agent's message history.
pub mod Lru
pub mod SlidingWindow
