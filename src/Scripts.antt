-- ===== src/Scripts.antt =====
-- scripts: the tools for operators that change the buckets.
pub mod AdminDelete
