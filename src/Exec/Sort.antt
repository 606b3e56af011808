-- ===== src/Exec/Sort.antt =====
-- internal/exec/compiler.go, `topoSort`: the steps of a plan in an order of what they depend on.
pub mod Ends
pub mod Plain
use ic.Prelude.{
  ℕ, zero, suc, ◌+◌, String, Bool, true, false, not, ◌&&◌, ◌||◌, List, [], ◌∷◌, ◌++◌, Option, none,
  some, same, length, any, ◌==◌, sort_strings, if◌then◌else◌,
}
use ic.Prelude.Dict.{lookup, insert}
use ic.Platform.Errors.{Code}
use ic.Exec.Plan.{PlanStep}
use ic.Exec.Collect.{CompileError, compile_error}

abbrev once_for_each : String → String → List String → List String
once_for_each id own [] = []
once_for_each id own (d ∷ ds) =
    let rest = once_for_each id own ds in if same d id then own ∷ rest else rest

module _ {F : Type 0} where
  abbrev pub is_planned : List (PlanStep F) → String → Bool
  is_planned steps id = any (λ (s : PlanStep F). same s.id id) steps

  -- byID[id]: the last step of an id.
  unfoldable pub step_of : String → List (PlanStep F) → Option (PlanStep F)
  step_of id [] = none
  step_of id (s ∷ steps) = elim (step_of id steps) [
    | some t ↦ some t
    | none ↦ if same s.id id then some s else none
  ]

  -- deps[id]: the ids of the steps that depend on a step, once for each time.
  unfoldable pub followers : String → List (PlanStep F) → List String
  followers id [] = []
  followers id (s ∷ steps) = once_for_each id s.id s.depends_on ++ followers id steps

  unfoldable pub zeros : List (PlanStep F) → List (String × ℕ) → List (String × ℕ)
  zeros [] indeg = indeg
  zeros (s ∷ steps) indeg = zeros steps (insert s.id 0 indeg)

-- indeg[id]++
unfoldable pub increase : String → List (String × ℕ) → List (String × ℕ)
increase id indeg = elim (lookup id indeg) [
  | none ↦ insert id 1 indeg
  | some n ↦ insert id (suc n) indeg
]

module _ {F : Type 0} where
  unfoldable pub increase_each :
      List (PlanStep F) → String → List String → List (String × ℕ) → List (String × ℕ)
  increase_each all id [] indeg = indeg
  increase_each all id (d ∷ ds) indeg =
      increase_each all id ds (if is_planned all d then increase id indeg else indeg)

  unfoldable pub in_degrees :
      List (PlanStep F) → List (PlanStep F) → List (String × ℕ) → List (String × ℕ)
  in_degrees all [] indeg = indeg
  in_degrees all (s ∷ steps) indeg =
      in_degrees all steps (increase_each all s.id s.depends_on indeg)

unfoldable pub free_ids : List (String × ℕ) → List String
free_ids [] = []
free_ids ((id, n) ∷ indeg) = let rest = free_ids indeg in if n == 0 then id ∷ rest else rest

-- The ids that depend on one that is done: those with nothing else to wait for enter the queue.
unfoldable pub release :
    List String → List (String × ℕ) → List String → List (String × ℕ) × List String
release [] indeg queue = (indeg, queue)
release (m ∷ ms) indeg queue = elim (lookup m indeg) [
  | none ↦ release ms indeg queue
  | some zero ↦ release ms indeg queue
  | some (suc n) ↦ release ms (insert m n indeg) (if n == 0 then queue ++ m ∷ [] else queue)
]

unfoldable pub total : List (String × ℕ) → ℕ
total [] = 0
total ((id, n) ∷ indeg) = n + total indeg

module _ {F : Type 0} where
  abbrev pub take_step : Option (PlanStep F) → List (PlanStep F) → List (PlanStep F)
  take_step none out = out
  take_step (some s) out = out ++ s ∷ []

  -- The loop over the queue; `none` where the fuel runs out.
  unfoldable pub kahn :
      List (PlanStep F)
      → ℕ
      → List String
      → List (String × ℕ)
      → List (PlanStep F)
      → Option (List (PlanStep F))
  kahn steps fuel [] indeg out = some out
  kahn steps zero (id ∷ queue) indeg out = none
  kahn steps (suc fuel) (id ∷ queue) indeg out =
      let r = release (sort_strings (followers id steps)) indeg queue in
      kahn steps fuel r.1 r.0 (take_step (step_of id steps) out)

  unfoldable pub last_depends : PlanStep F → List (PlanStep F) → PlanStep F
  last_depends s [] = s
  last_depends s (t ∷ steps) =
      last_depends (if same t.node_id s.node_id then record s { depends_on = t.depends_on } else s)
        steps

  unfoldable pub restore : List (PlanStep F) → List (PlanStep F) → List (PlanStep F)
  restore steps [] = []
  restore steps (s ∷ out) = last_depends s steps ∷ restore steps out

pub data Sorted (F : Type 0) : Type 0 where
  sorted : List (PlanStep F) → Sorted F
  cyclic : CompileError → Sorted F
  unended : Sorted F

module _ {F : Type 0} (steps : List (PlanStep F)) where
  abbrev pub start_degrees : List (String × ℕ)
  start_degrees = in_degrees steps steps (zeros steps [])

  abbrev pub start_queue : List String
  start_queue = sort_strings (free_ids start_degrees)

  -- Every turn takes an id off the queue, and a new one on it takes 1 off the in-degrees.
  abbrev pub sort_fuel : ℕ
  sort_fuel = length start_queue + total start_degrees

  unfoldable pub topo_sort : Sorted F
  topo_sort = elim (kahn steps sort_fuel start_queue start_degrees []) [
    | none ↦ unended
    | some out ↦
        if length out == length steps
        then sorted (restore steps out)
        else cyclic (compile_error Code.invalid_spec "" "plan contains a cycle")
  ]
