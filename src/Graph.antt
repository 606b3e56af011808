-- ===== src/Graph.antt =====
-- internal/graph: the canvas document, its operations, and the service that stores them.
pub mod Limits
pub mod Document
pub mod Ids
pub mod Schema
pub mod Validate
pub mod Geometry
pub mod Cycle
pub mod Operation
pub mod Apply
pub mod Acyclic
pub mod Bounds
pub mod Undo
pub mod Plugins
pub mod Store
pub mod Replay
pub mod Rebase
pub mod Service
pub mod Samples
mod Examples
