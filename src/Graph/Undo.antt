-- ===== src/Graph/Undo.antt =====
-- The reverse operations that `applyOne` returns for undo (internal/graph/op_apply.go).
pub mod Nodes
pub mod Config
