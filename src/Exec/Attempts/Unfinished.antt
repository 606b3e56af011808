-- ===== src/Exec/Attempts/Unfinished.antt =====
-- internal/exec/engine.go, `runStep`: a step that leaves an error has not succeeded.
use ic.Prelude.{
  ℕ, zero, suc, ◌+◌, ◌≢◌, inl, inr, Option, none, some, arith, Bool-cases, Option-cases,
}
use ic.Prelude.Int.{pos, ltb_ℤ}
use ic.Platform.Float.{Float64}
use ic.Exec.Plan.{PlanStep, Response, Run, Step, StepStatus}
use ic.Exec.Retry.{RetryPolicy}
use ic.Exec.World.{Credential, Request, World}
use ic.Exec.Attempts.{
  StepRun, persist_outputs, complete, attempt_loop, backoff_of, again, started, materialize_inputs,
  request_of, run_step, to_provider_error, attempt_fuel,
}
use ic.Exec.Attempts.Count.{Outcome-cases}

abbrev pub Unfinished : {F : Type 0} → Option (StepRun F) → Type 0
Unfinished none = Unit
Unfinished (some r) = r.failure ≢ none → r.step.status ≢ StepStatus.succeeded

module _ {F : Type 0} ⦃fl : Float64 F⦄ (world : World F) where
  complete-Unfinished :
      (run : Run F) (cred : Credential) (req : Request F) (n : ℕ) (step : Step) (res : Response)
      → step.status ≢ StepStatus.succeeded
      → Unfinished (some (complete world run cred req n step res))
  unfolding complete
  complete-Unfinished run cred req n step res h =
      elim (Outcome-cases (persist_outputs world run step 0 res.assets)) [
        | inl (out, e) ↦ rw (e, complete) (λ f. absurd (ground arith))
        | inr (x, e) ↦ rw (e, complete) (λ f. h)
      ]

  module _ (pow : F → F → F) (policy : RetryPolicy F) (run : Run F) where
    loop-Unfinished :
        (cred : Credential) (req : Request F) (fuel n : ℕ) (step : Step)
        → step.status ≢ StepStatus.succeeded
        → Unfinished (attempt_loop world pow policy run cred req fuel n step)
    unfolding attempt_loop
    loop-Unfinished cred req zero n step h = tt
    loop-Unfinished cred req (suc fuel) n step h =
        elim (Outcome-cases (world.invoke cred req (n + 1))) [
          | inl (res, e) ↦
              rw (e, attempt_loop) (complete-Unfinished run cred req (n + 1) step res h)
          | inr (ierr, e) ↦
              let x = to_provider_error ierr in
              let k = n + 1 in
              let backoff = backoff_of world pow policy run cred req k step x in
              let later = again world cred req k x step in
              elim (Bool-cases (ltb_ℤ (pos 0) backoff)) [
                | inr over ↦ rw (e, over, attempt_loop) (λ f. h)
                | inl more ↦ elim (Bool-cases (world.ends_waiting step.id k)) [
                  | inl cut ↦ rw (e, more, cut, attempt_loop) (λ f g. ground arith)
                  | inr on ↦
                      let ih = loop-Unfinished cred req fuel k later (λ g. ground arith) in
                      elim (Option-cases
                        (attempt_loop world pow policy run cred req fuel k later)) [
                          | inl out ↦ rw (e, more, on, out, attempt_loop) tt
                          | inr (r, went) ↦ rw (e, more, on, went, attempt_loop) (rw went at ih)
                        ]
                ]
              ]
        ]

    pub run_step-Unfinished :
        (step : Step) (ps : PlanStep F) → Unfinished (run_step world pow policy run step ps)
    unfolding run_step
    run_step-Unfinished step ps =
        elim (Option-cases (world.resolve ps.capability ps.provider_id ps.credential_id)) [
          | inl e ↦ rw (e, run_step) (λ f g. ground arith)
          | inr (cred, e) ↦
              elim (Outcome-cases (materialize_inputs world run.workspace_id ps.inputs)) [
                | inr (x, f) ↦ rw (e, f, run_step) (λ _ g. ground arith)
                | inl (inputs, f) ↦
                    let req = request_of world pow policy run step ps inputs in
                    let begun = started world pow policy step in
                    let fuel = attempt_fuel world pow policy in
                    let ih = loop-Unfinished cred req fuel 0 begun (λ g. ground arith) in
                    elim (Option-cases (attempt_loop world pow policy run cred req fuel 0 begun)) [
                      | inl out ↦ rw (e, f, out, run_step) tt
                      | inr (r, went) ↦ rw (e, f, went, run_step) (rw went at ih)
                    ]
              ]
        ]
