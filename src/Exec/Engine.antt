-- ===== src/Exec/Engine.antt =====
-- internal/exec/engine.go, `Execute`: the steps of a plan one after the other, and the status of the run.
pub mod Steps
pub mod Order
pub mod Turns
pub mod Finish
pub mod Statuses
pub mod Summary
pub mod Feeding
pub mod Links
pub mod Edges
pub mod Cuts
use ic.Prelude.{
  ℕ, zero, suc, ◌+◌, String, Bool, true, false, not, ◌&&◌, ◌||◌, List, [], ◌∷◌, ◌++◌, Option, none,
  some, same, map, any, ltb, ◌==◌, if◌then◌else◌,
}
use ic.Prelude.Int.{pos}
use ic.Prelude.Dict.{lookup}
use ic.Platform.Float.{Float64}
use ic.Provider.Errors.{CallError, upstream, run_canceled, ProviderError, classify_transport}
use ic.Graph.Document.{
  Document, Edge, Node, NodeResult, node_type_generation, node_type_run, upstream_of, find_node,
}
use ic.Exec.Plan.{Plan, PlanStep, Run, RunStatus, Step, StepStatus, no_usage, recompute_usage}
use ic.Exec.Retry.{RetryPolicy}
use ic.Exec.World.{Action, save_step, emit, write_canvas, save_run, World}
use ic.Exec.Attempts.{StepRun, run_step}
use ic.Exec.StepMap.{
  depends_on_nodes, has_node, by_node, put_step, by_id, is_succeeded, is_failed, dep_satisfied,
  deps_satisfied, count_if, summarize, primary_error, cancel_step, mark_canceled,
}

-- The steps after a part of the plan, and whether the run was canceled there.
pub record Ended (F : Type 0) : Type 0 where
  pub steps : List Step
  pub trace : List (Action F)
  pub canceled : Bool

pub record Executed (F : Type 0) : Type 0 where
  pub run : Run F
  pub trace : List (Action F)
  pub failure : Option CallError

abbrev pub is_run_canceled : CallError → Bool
is_run_canceled run_canceled = true
is_run_canceled _ = false

-- `classify_transport`, but an error of the upstream stays as it is.
abbrev pub step_error : CallError → ProviderError
step_error (upstream e) = e
step_error e = classify_transport e

abbrev pub with_trace : {F : Type 0} → List (Action F) → Ended F → Ended F
with_trace trace r = record r { trace = trace ++ r.trace }

module _ {F : Type 0} ⦃fl : Float64 F⦄ (world : World F) where
  abbrev pub new_step : PlanStep F → Step
  new_step ps = record {
    id = ps.id;
    node_id = ps.node_id;
    kind = ps.kind;
    status = StepStatus.pending;
    depends_on = ps.depends_on;
    attempts = [];
    outputs = [];
    text = "";
    error = none;
    started_at = world.now;
    finished_at = none;
  }

  abbrev pub step_ids : List Step → String → List String → List String
  step_ids steps own [] = []
  step_ids steps own (dep ∷ deps) = elim (by_node dep steps) [
    | none ↦ step_ids steps own deps
    | some d ↦ if same d.id own then step_ids steps own deps else d.id ∷ step_ids steps own deps
  ]

  -- The steps of the nodes that feed a step's node are added to what it depends on.
  unfoldable pub link_one : Document F → PlanStep F → List Step → Option Step
  link_one doc ps steps = elim (by_node ps.node_id steps) [
    | none ↦ none
    | some s ↦ some (record s {
      depends_on = s.depends_on ++ step_ids steps s.id (depends_on_nodes doc ps.node_id);
    })
  ]

  unfoldable pub link_steps : Document F → List (PlanStep F) → List Step → List Step
  link_steps doc [] steps = steps
  link_steps doc (ps ∷ rest) steps = elim (link_one doc ps steps) [
    | none ↦ link_steps doc rest steps
    | some s ↦ link_steps doc rest (put_step s steps)
  ]

  abbrev link_saves : Document F → List (PlanStep F) → List Step → List (Action F)
  link_saves doc [] steps = []
  link_saves doc (ps ∷ rest) steps = elim (link_one doc ps steps) [
    | none ↦ link_saves doc rest steps
    | some s ↦ save_step s ∷ link_saves doc rest (put_step s steps)
  ]

  abbrev no_result : NodeResult
  no_result = record { variants = []; primary = pos 0; run_id = ""; step_id = "" }

  abbrev pub failed_step : Step → CallError → Step
  failed_step s e = record s {
    status = StepStatus.failed;
    error = some (step_error e);
    finished_at = some world.now;
  }

  abbrev pub failure_trace : Run F → Step → List (Action F)
  failure_trace run s =
      save_step s
      ∷ emit s.id "step.failed"
      ∷ (if world.has_canvas && not run.ad_hoc
          then write_canvas run.canvas_id s.node_id no_result "failed" ∷ []
          else [])

  module _ (pow : F → F → F) (policy : RetryPolicy F) (run : Run F) where
    -- What happens to one step: it is skipped, it ran, it failed, or the run is canceled at it.
    unfoldable pub execute_one : List Step → Step → PlanStep F → Option (Ended F)
    execute_one steps s ps =
        if not (deps_satisfied steps s.depends_on)
        then (let skipped : Step = record s {
          status = StepStatus.skipped;
          finished_at = some world.now;
        } in
            some (record {
              steps = put_step skipped steps;
              trace = save_step skipped ∷ [];
              canceled = false;
            }))
        else elim (run_step world pow policy run s ps) [
          | none ↦ none
          | some r ↦ elim (r.failure) [
            | none ↦
                some (record { steps = put_step r.step steps; trace = r.trace; canceled = false })
            | some e ↦
                if is_run_canceled e || world.ended_after s.id
                then some (record {
                  steps = mark_canceled world.now (put_step r.step steps);
                  trace = r.trace;
                  canceled = true;
                })
                else some (record {
                  steps = put_step (failed_step r.step e) steps;
                  trace = r.trace ++ failure_trace run (failed_step r.step e);
                  canceled = false;
                })
          ]
        ]

    unfoldable pub execute_steps : List (PlanStep F) → List Step → Option (Ended F)
    execute_steps [] steps = some (record { steps = steps; trace = []; canceled = false })
    execute_steps (ps ∷ rest) steps = elim (by_node ps.node_id steps) [
      | none ↦ execute_steps rest steps
      | some s ↦ elim (execute_one steps s ps) [
        | none ↦ none
        | some r ↦ elim (r.canceled) [
          | true ↦ some r
          | false ↦ elim (execute_steps rest r.steps) [
            | none ↦ none
            | some later ↦ some (with_trace r.trace later)
          ]
        ]
      ]
    ]

  abbrev pub finish_trace : List (Action F)
  finish_trace = save_run ∷ emit "" "run.finished" ∷ []

  unfoldable pub finish_run : Run F → RunStatus → Option ProviderError → Run F
  finish_run run status e =
      recompute_usage (record run { status = status; error = e; finished_at = some world.now })

  abbrev pub failure_of : RunStatus → Option ProviderError → Option CallError
  failure_of RunStatus.failed (some e) = some (upstream e)
  failure_of _ _ = none

  -- The end of `Execute`, once the loop over the steps is done.
  unfoldable pub conclude : Run F → Ended F → Executed F
  conclude run r =
      if r.canceled
      then record {
        run = finish_run (record run { steps = r.steps }) RunStatus.canceled none;
        trace = r.trace ++ finish_trace;
        failure = some run_canceled;
      }
      else record {
        run =
            finish_run (record run { steps = r.steps }) (summarize r.steps) (primary_error r.steps);
        trace = r.trace ++ finish_trace;
        failure = failure_of (summarize r.steps) (primary_error r.steps);
      }

  abbrev pub steps_of : Plan F → Document F → List Step
  steps_of plan doc = link_steps doc plan.steps (map new_step plan.steps)

  abbrev pub begun : Run F → Run F
  begun run = record run { status = RunStatus.running }

  abbrev pub saved : Plan F → Document F → List (Action F)
  saved plan doc = save_run ∷ link_saves doc plan.steps (map new_step plan.steps)

  abbrev pub cut_at_start : Run F → Plan F → Document F → Executed F
  cut_at_start run plan doc = record {
    run = finish_run (record (begun run) { steps = steps_of plan doc }) RunStatus.canceled none;
    trace = saved plan doc ++ finish_trace;
    failure = some run_canceled;
  }

  -- `Execute` on an engine that is not stopped.
  unfoldable pub execute :
      (F → F → F) → RetryPolicy F → Run F → Plan F → Document F → Option (Executed F)
  execute pow policy run plan doc = elim (world.first_save) [
    | some e ↦ some (record { run = begun run; trace = save_run ∷ []; failure = some e })
    | none ↦
        if world.ended_at_start
        then some (cut_at_start run plan doc)
        else elim (execute_steps pow policy (begun run) plan.steps (steps_of plan doc)) [
          | none ↦ none
          | some r ↦ some (conclude (begun run) (with_trace (saved plan doc) r))
        ]
  ]
