-- ===== src/Alphasfile.antt =====
-- internal/alphasfile: the manifest of a stack.
pub mod Dag
pub mod Identity
