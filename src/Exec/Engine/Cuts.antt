-- ===== src/Exec/Engine/Cuts.antt =====
-- internal/exec/engine.go, `Execute`: why a run is canceled in its loop.
use ic.Prelude.{
  ◌≡◌, refl, subst, ◌⊎◌, inl, inr, true, List, [], ◌∷◌, Option, none, some, arith, In, Bool-cases,
  Option-cases,
}
use ic.Platform.Float.{Float64}
use ic.Provider.Errors.{CallError, run_canceled}
use ic.Exec.Plan.{PlanStep, Run, Step}
use ic.Exec.Retry.{RetryPolicy}
use ic.Exec.World.{World}
use ic.Exec.Attempts.{StepRun, run_step}
use ic.Exec.Attempts.Count.{run_step-max_attempts}
use ic.Exec.StepMap.{by_node, deps_satisfied}
use ic.Exec.Engine.{Ended, is_run_canceled, execute_one, execute_steps}
use ic.Exec.Engine.Steps.{by_node-some}

is_run_canceled-eq : (e : CallError) → is_run_canceled e ≡ true → e ≡ run_canceled
is_run_canceled-eq e h = ground arith

module _ {F : Type 0} ⦃fl : Float64 F⦄ (world : World F) (pow : F → F → F) (policy : RetryPolicy F)
    (run : Run F) where
  -- A step came back with the error of a canceled run, or with an error after which the run had ended.
  abbrev pub CutIn : Step → PlanStep F → Type 0
  CutIn s ps =
      (r : StepRun F) × (e : CallError) × (run_step world pow policy run s ps ≡ some r)
      × (r.failure ≡ some e)
      × ((e ≡ run_canceled) ⊎ (world.ended_after s.id ≡ true))

  abbrev pub Interrupted : List (PlanStep F) → Type 0
  Interrupted plan =
      (ps : PlanStep F) × (s : Step) × In ps plan × (s.node_id ≡ ps.node_id) × CutIn s ps

  abbrev OneCut : Step → PlanStep F → Option (Ended F) → Type 0
  OneCut s ps none = Unit
  OneCut s ps (some r) = r.canceled ≡ true → CutIn s ps

  abbrev pub SomeCut : List (PlanStep F) → Option (Ended F) → Type 0
  SomeCut plan none = Unit
  SomeCut plan (some r) = r.canceled ≡ true → Interrupted plan

  execute_one-OneCut :
      (steps : List Step) (s : Step) (ps : PlanStep F)
      → OneCut s ps (execute_one world pow policy run steps s ps)
  unfolding execute_one
  execute_one-OneCut steps s ps = elim (Bool-cases (deps_satisfied steps s.depends_on)) [
    | inr wait ↦ rw (wait, execute_one) (λ h. absurd (ground arith))
    | inl go ↦
        let (r, e, _, _, _) = run_step-max_attempts world pow policy run s ps in
        elim (Option-cases (r.failure)) [
          | inl fine ↦ rw (go, e, fine, execute_one) (λ h. absurd (ground arith))
          | inr (x, f) ↦ elim (Bool-cases (is_run_canceled x)) [
            | inl cut ↦
                let why : (x ≡ run_canceled) ⊎ (world.ended_after s.id ≡ true) =
                  inl (is_run_canceled-eq x cut) in
                rw (go, e, f, cut, execute_one) (λ h. (r, x, e, f, why))
            | inr goes ↦ elim (Bool-cases (world.ended_after s.id)) [
              | inl cut ↦ rw (go, e, f, goes, cut, execute_one) (λ h. (r, x, e, f, inr cut))
              | inr on ↦ rw (go, e, f, goes, on, execute_one) (λ h. absurd (ground arith))
            ]
          ]
        ]
  ]

  Interrupted-later :
      (ps : PlanStep F) (plan : List (PlanStep F)) → Interrupted plan → Interrupted (ps ∷ plan)
  Interrupted-later ps plan (qs, s, m, n, cut) = (qs, s, inr m, n, cut)

  pub execute_steps-SomeCut :
      (plan : List (PlanStep F)) (steps : List Step)
      → SomeCut plan (execute_steps world pow policy run plan steps)
  unfolding execute_steps
  execute_steps-SomeCut [] steps = λ h. absurd (ground arith)
  execute_steps-SomeCut (ps ∷ rest) steps = elim (Option-cases (by_node ps.node_id steps)) [
    | inl gone ↦
        let ih = execute_steps-SomeCut rest steps in
        elim (Option-cases (execute_steps world pow policy run rest steps)) [
          | inl out ↦ rw (gone, out, execute_steps) tt
          | inr (r, e) ↦
              rw (gone, e, execute_steps)
                (λ h. Interrupted-later ps rest (subst (SomeCut rest) e ih h))
        ]
    | inr (s, found) ↦
        let (_, here) = by_node-some ps.node_id s steps found in
        let one = execute_one-OneCut steps s ps in
        elim (Option-cases (execute_one world pow policy run steps s ps)) [
          | inl out ↦ rw (found, out, execute_steps) tt
          | inr (q, went) ↦ elim (Bool-cases q.canceled) [
            | inl cut ↦
                let why : CutIn s ps = subst (OneCut s ps) went one cut in
                rw (found, went, cut, execute_steps) (λ h. (ps, s, inl refl, here, why))
            | inr on ↦
                let ih = execute_steps-SomeCut rest q.steps in
                elim (Option-cases (execute_steps world pow policy run rest q.steps)) [
                  | inl out ↦ rw (found, went, on, out, execute_steps) tt
                  | inr (later, e) ↦
                      rw (found, went, on, e, execute_steps)
                        (λ h. Interrupted-later ps rest (subst (SomeCut rest) e ih h))
                ]
          ]
        ]
  ]
