-- ===== src/Exec/StepMap.antt =====
-- internal/exec/engine.go: the steps of a run as `byNode` has them, and what they come to.
use ic.Prelude.{
  ℕ, suc, String, Bool, true, false, not, ◌&&◌, ◌||◌, List, [], ◌∷◌, Option, none, some, same, map,
  any, ltb, ◌==◌, if◌then◌else◌,
}
use ic.Provider.Errors.{ProviderError}
use ic.Graph.Document.{Document, Edge, node_type_generation, node_type_run, upstream_of, find_node}
use ic.Exec.Plan.{RunStatus, Step, StepStatus}

module _ {F : Type 0} where
  -- The executing nodes that feed a node, once for each edge.
  unfoldable pub sources_of : Document F → List Edge → List String
  sources_of doc [] = []
  sources_of doc (e ∷ es) =
      let rest = sources_of doc es in
      elim (find_node doc e.from.node_id) [
        | none ↦ rest
        | some n ↦
            if same n.type node_type_generation || same n.type node_type_run
            then n.id ∷ rest
            else rest
      ]

  unfoldable pub depends_on_nodes : Document F → String → List String
  unfolding sources_of
  depends_on_nodes doc node_id = sources_of doc (upstream_of doc node_id)

abbrev pub has_node : String → List Step → Bool
has_node node_id = any (λ (s : Step). same s.node_id node_id)

-- byNode[node_id]: a later step of the same node takes the place of an earlier one.
unfoldable pub by_node : String → List Step → Option Step
by_node node_id [] = none
by_node node_id (s ∷ steps) =
    let rest = by_node node_id steps in
    elim rest [ some t ↦ some t | none ↦ if same s.node_id node_id then some s else none ]

-- A change of the step that `byNode` holds.
unfoldable pub put_step : Step → List Step → List Step
put_step t [] = []
put_step t (s ∷ steps) =
    let rest = put_step t steps in
    if has_node t.node_id steps
    then s ∷ rest
    else if same s.node_id t.node_id
    then t ∷ steps
    else s ∷ rest

-- The step of an id among those of `byNode`.
unfoldable pub by_id : String → List Step → Option Step
by_id id [] = none
by_id id (s ∷ steps) =
    let rest = by_id id steps in
    if same s.id id && not (has_node s.node_id steps) then some s else rest

abbrev pub is_succeeded : StepStatus → Bool
is_succeeded StepStatus.succeeded = true
is_succeeded _ = false

abbrev pub is_failed : StepStatus → Bool
is_failed StepStatus.failed = true
is_failed _ = false

abbrev pub dep_satisfied : List Step → String → Bool
dep_satisfied steps dep = elim (by_id dep steps) [ none ↦ true | some s ↦ is_succeeded s.status ]

unfoldable pub deps_satisfied : List Step → List String → Bool
deps_satisfied steps [] = true
deps_satisfied steps (dep ∷ deps) = dep_satisfied steps dep && deps_satisfied steps deps

-- The status of a run from its steps: how many failed, and how many succeeded.
unfoldable pub count_if : (StepStatus → Bool) → List Step → ℕ
count_if p [] = 0
count_if p (s ∷ steps) = if p s.status then suc (count_if p steps) else count_if p steps

unfoldable pub summarize : List Step → RunStatus
summarize steps =
    if ltb 0 (count_if is_failed steps)
    then (if count_if is_succeeded steps == 0 then RunStatus.failed else RunStatus.partial)
    else RunStatus.succeeded

-- The error of the first failed step that has one.
unfoldable pub primary_error : List Step → Option ProviderError
primary_error [] = none
primary_error (s ∷ steps) =
    let rest = primary_error steps in
    if is_failed s.status then elim (s.error) [ some e ↦ some e | none ↦ rest ] else rest

abbrev pub cancel_step : ℕ → Step → Step
cancel_step now s =
    if is_succeeded s.status || is_failed s.status
    then s
    else record s { status = StepStatus.canceled; finished_at = some now }

unfoldable pub mark_canceled : ℕ → List Step → List Step
mark_canceled now = map (cancel_step now)
