-- ===== src/Exec.antt =====
-- internal/exec: the execution engine with its queue, its costs and its quotas.
pub mod Queue
pub mod Cost
pub mod Quota
pub mod Plan
pub mod Retry
pub mod World
pub mod Attempts
pub mod StepMap
pub mod Engine
pub mod RunStore
pub mod AdHoc
pub mod Collect
pub mod Sort
pub mod Inputs
pub mod Compile
mod Examples
mod RunSamples
mod RunExamples
