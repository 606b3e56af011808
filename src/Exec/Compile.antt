-- ===== src/Exec/Compile.antt =====
-- internal/exec/compiler.go, `Compile`: a part of a canvas becomes a plan.
pub mod Sound
use ic.Prelude.{ℕ, String, Bool, true, false, List, [], ◌∷◌, Option, none, some, map}
use ic.Platform.Float.{Float64}
use ic.Platform.Errors.{Code, DomainError, err_invalid}
use ic.Graph.Document.{Document}
use ic.Exec.Plan.{Plan, PlanStep}
use ic.Exec.Collect.{
  CompileError, compile_error, Collected, went, broke, out_of_fuel, Found, CredentialFor,
  collect_targets,
}
use ic.Exec.Sort.{Sorted, sorted, cyclic, unended, topo_sort}
use ic.Exec.Inputs.{Resolved, resolved, refused, resolve_inputs}

-- The ends of a compile; `endless` is no end of the code's.
pub data Compiled (F : Type 0) : Type 0 where
  compiled : Plan F → Compiled F
  rejected : CompileError → Compiled F
  invalid : DomainError → Compiled F
  endless : Compiled F

module _ {F : Type 0} (doc : Document F) where
  -- The loop that gives every step its inputs; the prompt stays what `stepFor` read.
  unfoldable pub resolve_steps : List (PlanStep F) → Resolved (List (PlanStep F))
  resolve_steps [] = resolved []
  resolve_steps (s ∷ steps) = elim (resolve_inputs doc s) [
    | refused e ↦ refused e
    | resolved inputs ↦ elim (resolve_steps steps) [
      | refused e ↦ refused e
      | resolved rest ↦ resolved (record s { inputs = inputs } ∷ rest)
    ]
  ]

  abbrev pub plan_of : List (PlanStep F) → List (PlanStep F) → Plan F
  plan_of ordered steps = record { steps = steps; order = map (λ s. s.id) ordered }

  unfoldable pub order_steps : List (PlanStep F) → Compiled F
  order_steps [] = rejected (compile_error Code.invalid_request "" "no executable node in targets")
  order_steps (s ∷ steps) = elim (topo_sort (s ∷ steps)) [
    | unended ↦ endless
    | cyclic e ↦ rejected e
    | sorted ordered ↦ elim (resolve_steps ordered) [
      | refused e ↦ rejected e
      | resolved done ↦ compiled (plan_of ordered done)
    ]
  ]

module _ {F : Type 0} ⦃fl : Float64 F⦄ (credential_for : CredentialFor) (doc : Document F) where
  unfoldable pub compile : List String → Compiled F
  compile [] = invalid (err_invalid "targetNodes is required")
  compile (t ∷ targets) = elim (collect_targets credential_for doc (t ∷ targets)) [
    | out_of_fuel ↦ endless
    | broke e ↦ rejected e
    | went st ↦ order_steps doc st.steps
  ]
