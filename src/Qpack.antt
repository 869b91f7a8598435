-- ===== src/Qpack.antt =====
-- The tables of QPACK (qpack.c).
pub mod Entry
pub mod Static
pub mod Table
pub mod Find
