-- ===== src/Sandbox.antt =====
-- internal/sandbox: the language of the scripts that map a request to an upstream one. A script is
-- text; Lexer and Parser make a tree of it, Analyze tells what the tree may touch, and Eval runs it
-- under a budget of steps.
pub mod Limits
pub mod Syntax
pub mod Values
pub mod Machine
pub mod HostFuncs
pub mod Operators
pub mod Eval
pub mod Analyze
pub mod Logic
pub mod Clean
pub mod Names
pub mod Unknown
pub mod Work
pub mod Spending
pub mod Budget
pub mod Doubling
pub mod Chars
pub mod Lexer
pub mod Parser
pub mod Written
pub mod Samples
pub mod Examples
