-- ===== src/Eval.antt =====
-- The evaluation engine, src/eval.rs.
pub mod Distance
