-- ===== src/Graph/Bounds.antt =====
-- What batches do to the rectangles of a canvas (internal/graph/op_apply.go).
pub mod Maps
pub mod Nodes
pub mod Batch
