-- ===== src/Graph/Apply.antt =====
-- internal/graph/op_apply.go, one module for each group of operations, and `applyOne` over them.
pub mod Nodes
pub mod Config
pub mod Edges
pub mod Groups
pub mod Settings
pub mod Dispatch
