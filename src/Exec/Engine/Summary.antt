-- ===== src/Exec/Engine/Summary.antt =====
-- internal/exec/engine.go, the end of `Execute`: the status of a run, and the error that it returns.
use ic.Prelude.{
  ◌≡◌, refl, subst, ◌∙◌, ◌≢◌, ◌⊎◌, inl, inr, true, false, none, some, arith, In, AllDistinct,
}
use ic.Platform.Float.{Float64}
use ic.Provider.Errors.{ProviderError, upstream, run_canceled}
use ic.Graph.Document.{Document}
use ic.Exec.Plan.{Plan, Run, RunStatus, Step, StepStatus, recompute_usage}
use ic.Exec.Retry.{RetryPolicy}
use ic.Exec.World.{World}
use ic.Exec.StepMap.{summarize, primary_error}
use ic.Exec.Engine.{
  finish_run, failure_of, conclude, begun, Ended, Executed, execute, with_trace, saved, steps_of,
}
use ic.Exec.Sort.Plain.{plan_ids}
use ic.Exec.Engine.Turns.{plan_nodes}
use ic.Exec.Engine.Cuts.{Interrupted, SomeCut, execute_steps-SomeCut}
use ic.Exec.Engine.Finish.{execute-conclude, conclude-steps}
use ic.Exec.Engine.Statuses.{
  Some, IsFirstError, primary_error-first, primary_error-none, summarize-cases,
}

module _ {F : Type 0} ⦃fl : Float64 F⦄ (world : World F) where
  conclude-fields :
      (run : Run F) (r : Ended F)
      → r.canceled ≡ false
      → let x = conclude world run r in
        (x.run.status ≡ summarize r.steps)
        × (x.run.error ≡ primary_error r.steps)
        × (x.failure ≡ failure_of world (summarize r.steps) (primary_error r.steps))
  unfolding conclude finish_run recompute_usage
  conclude-fields run r on = ground arith

  conclude-canceled :
      (run : Run F) (r : Ended F)
      → r.canceled ≡ true
      → let x = conclude world run r in
        (x.run.status ≡ RunStatus.canceled) × (x.run.error ≡ none) × (x.failure ≡ some run_canceled)
  unfolding conclude finish_run recompute_usage
  conclude-canceled run r cut = ground arith

  module _ (pow : F → F → F) (policy : RetryPolicy F) (run : Run F) (plan : Plan F) where
    -- What a run ends with, told by its steps.
    abbrev pub Summed : Executed F → Type 0
    Summed x =
        ((x.run.status ≡ RunStatus.succeeded)
          × (x.failure ≡ none)
          × (x.run.error ≡ none)
          × ¬ Some StepStatus.failed x.run.steps)
        ⊎ ((x.run.status ≡ RunStatus.partial)
            × (x.failure ≡ none)
            × Some StepStatus.succeeded x.run.steps
            × ((e : ProviderError) × (x.run.error ≡ some e) × IsFirstError e x.run.steps))
        ⊎ ((x.run.status ≡ RunStatus.failed)
            × (¬ Some StepStatus.succeeded x.run.steps)
            × ((e : ProviderError) × (x.failure ≡ some (upstream e))
                × (x.run.error ≡ some e)
                × IsFirstError e x.run.steps))
        ⊎ ((x.run.status ≡ RunStatus.canceled)
            × (x.failure ≡ some run_canceled)
            × (x.run.error ≡ none)
            × Interrupted world pow policy (begun world run) plan.steps)

    conclude-Summed :
        (r : Ended F)
        → r.canceled ≡ false
        → ((s : Step) → In s r.steps → s.status ≡ StepStatus.failed → s.error ≢ none)
        → Summed (conclude world (begun world run) r)
    conclude-Summed r on err =
        let now = begun world run in
        let (st, er, fa) = conclude-fields now r on in
        let kept = conclude-steps world now r in
        elim (summarize-cases r.steps) [
          | inl (e, sound) ↦
              inl (st ∙ e, fa ∙ rw e refl, er ∙ primary_error-none r.steps sound, rw kept sound)
          | inr (inl (e, f, s)) ↦
              let (x, g, first) = primary_error-first r.steps err f in
              inr (inl (st ∙ e, fa ∙ rw e refl, rw kept s, (x, er ∙ g, rw kept first)))
          | inr (inr (e, s, f)) ↦
              let (x, g, first) = primary_error-first r.steps err f in
              inr (inr (inl (st ∙ e, rw kept s, (x, fa ∙ rw (e, g) refl, er ∙ g, rw kept first))))
        ]

    -- Where no id and no node stands twice in the plan, the first save of the run works, and the run is
    -- not canceled before its first step, `Execute` comes back. The run is succeeded, without an error,
    -- where no step failed. It is partial where some step failed and some succeeded, and failed where
    -- some failed and none succeeded: it keeps the error of the first failed step, and `Execute`
    -- returns that error where it is failed. Or it is canceled, and `Execute` says so, where a step
    -- came back with the error of a canceled run, or with an error after which the run had ended.
    pub execute-Summed :
        (doc : Document F)
        → AllDistinct (plan_ids plan.steps)
        → AllDistinct (plan_nodes plan.steps)
        → world.first_save ≡ none
        → world.ended_at_start ≡ false
        → (x : Executed F) × (execute world pow policy run plan doc ≡ some x) × Summed x
    execute-Summed doc di dn saves on =
        let (r, e, went, (_, stops)) =
          execute-conclude world pow policy run plan doc di dn saves on in
        let now = begun world run in
        let ended = with_trace (saved world plan doc) r in
        let cuts =
          execute_steps-SomeCut world pow policy now plan.steps (steps_of world plan doc) in
        (
          conclude world now ended,
          e,
          elim stops [
            | inl (cut, _) ↦
                let (st, er, fa) = conclude-canceled now ended cut in
                let why = subst (SomeCut world pow policy now plan.steps) went cuts cut in
                inr (inr (inr (st, fa, er, why)))
            | inr (goes, _, t) ↦
                conclude-Summed ended goes (λ s m. elim (t s m) [
                  | inl (_, _, err) ↦ err
                  | inr (nowhere, _) ↦ absurd nowhere
                ])
          ],
        )
