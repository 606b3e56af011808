-- ===== src/Lib.antt =====
-- The canvas server: a document of nodes and edges that several clients edit by batches of
-- operations, and an engine that runs the generation nodes of a canvas.
--
-- The parts and how they meet:
-- * Graph models internal/graph. Document, Limits, Ids, Schema and Validate are the document of
--   doc.go, the bounds of limits.go, the names of id.go and the schemas of spec.go with their
--   validation; Geometry and Cycle are the checks of op_graph.go; Operation is op.go's operations
--   and Apply is op_apply.go, one function for each operation, with Apply.Dispatch for
--   `applyOne`, `DecodeOp` and `Apply`. Store is memory_store.go, Replay is replay.go, and
--   Service and Rebase are `AppendOps` and `rebaseable` of service.go: the service reads the
--   document, checks the base version, rebases a late batch over the log, applies the batch,
--   appends it to the store and publishes its records.
-- * Exec models internal/exec. Plan is plan.go, with the requests and answers of
--   internal/provider/types.go; Collect, Sort, Inputs and Compile are compiler.go: `collect`
--   finds the nodes of a run and `stepFor` makes their steps, `topoSort` orders them,
--   `resolveInputs` reads what feeds them, and `Compile` puts these together; Retry is retry.go;
--   World is what a run meets outside of the engine (the interfaces of deps.go and engine.go, the
--   clock, the context and the random numbers); Attempts is `runStep` with the loop over the
--   attempts; StepMap is `byNode` with what is read off it, and Engine is `Execute`, the steps of
--   a plan one after the other and the status of the run; AdHoc is adhoc.go; RunStore is
--   memstore.go with `Create` of engine.go. Queue is scheduler.go, with its callers as a step
--   relation in Queue.Callers, Cost is usage.go, and Quota is `CheckQuota` of quota.go, over a
--   store and a calendar.
-- * Sandbox models internal/sandbox, the language of the scripts that map a request. Limits is
--   sandbox.go, Chars and Lexer are lexer.go, Parser is parser.go, Syntax is ast.go with
--   `freeIdents`, Values is values.go, Machine has the state of the interpreter and `tick`,
--   HostFuncs is hostfuncs.go, Operators and Eval are eval.go with `RunDetailed` of interp.go
--   from the tree of a script, and Analyze is `Analyze` from that tree.
-- * Provider models capability.go and errors.go of internal/provider: the names of capabilities,
--   and the classes of errors that decide on a retry.
-- * Platform has the errors of internal/platform/errors.go and the interface of doubles; Prelude
--   has the texts, maps and integers that the parts share.
--
-- Proofs stand below what they are about: Graph.Cycle.Correct for the search for a cycle,
-- Graph.Acyclic for the edges under a batch, Graph.Bounds for the rectangles, Graph.Undo for the
-- reverse operations, Graph.Plugins, Graph.Store.Log, Graph.Rebase.Footprints, Graph.Rebase.Safe,
-- Graph.Service.Commit, Exec.Queue.Fifo, Exec.Queue.Close, Exec.Cost.Exact, Exec.Quota.Decision,
-- Exec.Collect.Fuel, Exec.Sort.Ends, Exec.Sort.Plain, Exec.Compile.Sound, Exec.Retry.Bounds,
-- Exec.Attempts.Count, Exec.Attempts.Unfinished, Exec.Engine.Order, Exec.Engine.Turns,
-- Exec.Engine.Finish, Exec.Engine.Feeding, Exec.Engine.Links and Exec.Engine.Edges for the edges
-- of a canvas in a run, Exec.Engine.Cuts, Exec.Engine.Statuses, Exec.Engine.Summary,
-- Exec.AdHoc.Limits and Exec.RunStore. Sandbox.Logic carries what the smallest steps of the
-- interpreter keep to whole scripts, for Sandbox.Clean, Sandbox.Unknown and Sandbox.Budget;
-- Sandbox.Work says what a tree costs at the least, and Sandbox.Spending that it is paid;
-- Sandbox.Written joins the parser to the runs; Sandbox.Eval.Reads is about what a script reads,
-- Sandbox.Doubling about its texts and Sandbox.Lexer.Total about its tokens. Samples, Examples
-- and RunExamples have tests.
--
-- How the code is read: a struct is a record, a Go map is an association list in the order of its
-- insertion, an error is a `Result`, a pointer that may be nil is an `Option`, a time is a number
-- with zero for the zero time. A mutation is a new document: `Apply` works on a clone, so nothing
-- else sees a document that a failing batch has half changed. The lock of a canvas makes
-- `AppendOps` one step. Doubles are a type `F` with the operations of `Float64` and no laws, so
-- that what is shown holds for any arithmetic. Costs are 64-bit integers that wrap around.
--
-- A run of the engine is a function of a `World`, whose fields answer for the adapters, the
-- assets, the blobs, the canvas, the random numbers and the context, in every way they may; what
-- the engine does to them is kept as a trace of actions. The shared step of `byNode` and
-- `run.Steps` is one entry of a list, which a change replaces. All clock readings of a run are
-- one time, and latencies are left out.
--
-- The values of a script are those of encoding/json, its texts UTF-8, and a step of the
-- interpreter is a function of its state, the outcome a value or a fault with the state that is
-- left. Go's library functions (Sandbox.Values.Host), the clock and the context
-- (Sandbox.Machine.Clock) are parameters without laws. The rounding of a number to an index is a
-- parameter of the doubles.
--
-- Fuel: the depth-first search of `wouldCycle` (Graph.Cycle.walk) runs on fuel, which Cycle.Fuel
-- and Cycle.Correct show to be enough on every document. The climb of `checkParent` is bounded by
-- the depth limit of the source itself. `collect` (Exec.Collect) has fuel for every node of the
-- document, since each visit that goes on marks one; the loop of `topoSort` (Exec.Sort.kahn) has
-- fuel for its queue and the sum of its in-degrees, of which each turn takes one off; the
-- attempts (Exec.Attempts) have fuel for the attempts that the policy allows; the lexer
-- (Sandbox.Lexer) has fuel for its characters. The parser (Sandbox.Parser) has fuel by the number
-- of its tokens, which is not shown to be enough; what is said of a parsed script is about one
-- that came back. Where fuel runs out the result is one that the code does not have. All other
-- loops are structural.
--
-- Not modelled: encoding/json (an operation comes as a size, a kind and a payload that was read
-- or not), the details and causes of errors, the display data of canvases, the SQL stores, the
-- HTTP layer, the typed Go slices in an environment of a script, the register of running runs
-- with `Cancel` and `Stop`, the resumption of asynchronous tasks, the replay of a run from its
-- snapshot, the event bus, and the other packages of internal. The texts of provider errors are
-- for display. The plugin registry is a parameter.
mod Prelude
pub mod Platform
pub mod Provider
pub mod Graph
pub mod Exec
pub mod Sandbox
