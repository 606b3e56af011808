-- ===== src/Sandbox/Logic.antt =====
-- internal/sandbox: what an execution keeps. A logic says which states, values and faults are
-- admitted; its laws are about the smallest steps, and the children carry it to whole scripts.
pub mod Defs
pub mod Values
pub mod Args
pub mod Calls
pub mod Admits
pub mod Scripts
pub mod Runs
