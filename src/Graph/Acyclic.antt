-- ===== src/Graph/Acyclic.antt =====
-- What batches do to the edges of a canvas (internal/graph/op_apply.go and op_graph.go).
pub mod Paths
pub mod Effects
pub mod Steps
