-- ===== src/Exec/Attempts/Count.antt =====
-- internal/exec/engine.go, `runStep`: the number of calls of the upstream, and that the loop ends.
use ic.Prelude.{
  ℕ, zero, suc, ◌+◌, ◌≤◌, ◌≡◌, refl, ap, ◌∙◌, ◌⊎◌, inl, inr, String, true, List, [], ◌∷◌, ◌++◌,
  Option, none, some, arith, Bool-cases, Option-cases,
}
use ic.Prelude.Int.{pos, pos_part, ltb_ℤ}
use ic.Platform.Float.{Float64}
use ic.Provider.Errors.{CallError, upstream, run_canceled, ErrorClass, ProviderError, of_class}
use ic.Exec.Plan.{OutputAsset, PlanStep, Response, Run, Step, StepStatus}
use ic.Exec.Retry.{RetryPolicy, next, should_retry}
use ic.Exec.World.{
  Action, save_step, save_attempt, call, emit, wait, write_canvas, save_run, Credential, Outcome,
  done, failed, Request, World,
}
use ic.Exec.Attempts.{
  StepRun, persist_outputs, complete, attempt_loop, backoff_of, tried, again, made, waited,
  materialize_inputs, started, start_trace, request_of, run_step, write_result, result_of, after,
  to_provider_error,
}

abbrev pub Outcome-cases :
    {A : Type 0} (o : Outcome A) → ((a : A) × (o ≡ done a)) ⊎ ((e : CallError) × (o ≡ failed e))
Outcome-cases (done a) = inl (a, refl)
Outcome-cases (failed e) = inr (e, refl)

-- The calls of the upstream in a trace.
unfoldable pub calls : {F : Type 0} → List (Action F) → ℕ
calls [] = 0
calls (x ∷ rest) = elim x [ call _ _ ↦ suc (calls rest) | _ ↦ calls rest ]

pub calls-++ : {F : Type 0} (a b : List (Action F)) → calls (a ++ b) ≡ calls a + calls b
unfolding calls
calls-++ [] b = omega arith
calls-++ (call _ _ ∷ a) b = omega (arith, calls-++ a b)
calls-++ (save_step _ ∷ a) b = calls-++ a b
calls-++ (save_attempt _ _ ∷ a) b = calls-++ a b
calls-++ (emit _ _ ∷ a) b = calls-++ a b
calls-++ (wait _ ∷ a) b = calls-++ a b
calls-++ (write_canvas _ _ _ _ ∷ a) b = calls-++ a b
calls-++ (save_run ∷ a) b = calls-++ a b

-- A step keeps what it is and what it depends on.
abbrev pub Keeps : Step → Step → Type 0
Keeps s t = (t.id ≡ s.id) × (t.node_id ≡ s.node_id) × (t.depends_on ≡ s.depends_on)

-- Where no error is left, the step has succeeded.
abbrev pub Settled : {F : Type 0} → StepRun F → Type 0
Settled r = r.failure ≡ none → r.step.status ≡ StepStatus.succeeded

module _ {F : Type 0} ⦃fl : Float64 F⦄ (world : World F) where
  calls-write_result :
      (run : Run F) (step : Step) (out : List OutputAsset) (text : String)
      → calls (write_result world run step out text) ≡ 0
  unfolding calls write_result
  calls-write_result run step out text =
      elim (Option-cases
        (world.write_back run.canvas_id step.node_id (result_of world run step out text))) [
          | inl w ↦ ground arith
          | inr w ↦ ground arith
        ]

  calls-complete :
      (run : Run F) (cred : Credential) (req : Request F) (n : ℕ) (step : Step) (res : Response)
      → let r = complete world run cred req n step res in
        (calls r.trace ≡ 0) × Keeps step r.step × Settled r
  unfolding calls complete
  calls-complete run cred req n step res =
      elim (Outcome-cases (persist_outputs world run step 0 res.assets)) [
        | inl (out, e) ↦ (
          rw (e, complete)
              (calls-++ (write_result world run step out res.text)
                  (emit step.id "step.succeeded" ∷ [])
                ∙ ap (λ k. k + 0) (calls-write_result run step out res.text)),
          rw (e, complete) (refl, refl, refl),
          rw (e, complete) (λ _. refl),
        )
        | inr (x, e) ↦ rw (e, complete) (refl, (refl, refl, refl), λ h. ground arith)
      ]

  next-should_retry :
      (pow : F → F → F) (p : RetryPolicy F) (roll : F) (attempt : ℕ) (e : ProviderError)
      → ltb_ℤ (pos 0) (next pow p roll attempt (some e)) ≡ true
      → suc attempt ≤ pos_part p.max_attempts
  unfolding next should_retry
  next-should_retry pow p roll attempt e h = ground arith

  module _ (pow : F → F → F) (policy : RetryPolicy F) (run : Run F) (cred : Credential)
      (req : Request F) where
    -- The loop comes back, and no call is made beyond the policy's bound but the first one.
    abbrev pub Ends : ℕ → Step → Option (StepRun F) → Type 0
    Ends n step o =
        (r : StepRun F) × (o ≡ some r)
        × Keeps step r.step
        × Settled r
        × (1 ≤ calls r.trace)
        × ((calls r.trace ≡ 1) ⊎ (n + calls r.trace ≤ pos_part policy.max_attempts))

    -- One attempt, where the rest of the loop comes back if there may be another one.
    attempt-Ends :
        (fuel n : ℕ) (step : Step)
        → ((t : Step)
            → n + 2 ≤ pos_part policy.max_attempts
            → Ends (n + 1) t (attempt_loop world pow policy run cred req fuel (n + 1) t))
        → Ends n step (attempt_loop world pow policy run cred req (suc fuel) n step)
    unfolding attempt_loop calls
    attempt-Ends fuel n step later = elim (Outcome-cases (world.invoke cred req (n + 1))) [
      | inl (res, e) ↦
          let (quiet, keeps, settled) = calls-complete run cred req (n + 1) step res in
          (
            after (call req (n + 1) ∷ []) (complete world run cred req (n + 1) step res),
            rw (e, attempt_loop) refl,
            keeps,
            settled,
            omega (arith, quiet),
            inl (omega (arith, quiet)),
          )
      | inr (ierr, e) ↦
          let x = to_provider_error ierr in
          let k = n + 1 in
          let backoff = backoff_of world pow policy run cred req k step x in
          elim (Bool-cases (ltb_ℤ (pos 0) backoff)) [
            | inr over ↦ (
              record {
                step = tried world cred req k x step;
                trace = made world cred req k x step;
                failure = some (upstream x);
              },
              rw (e, over, attempt_loop) refl,
              (refl, refl, refl),
              (λ h. ground arith),
              omega arith,
              inl refl,
            )
            | inl more ↦ elim (Bool-cases (world.ends_waiting step.id k)) [
              | inl cut ↦ (
                record {
                  step = again world cred req k x step;
                  trace = waited world cred req k x backoff step;
                  failure = some run_canceled;
                },
                rw (e, more, cut, attempt_loop) refl,
                (refl, refl, refl),
                (λ h. ground arith),
                omega arith,
                inl refl,
              )
              | inr on ↦
                  let room = next-should_retry pow policy (world.roll step.id k) k x more in
                  let (r, e', keeps, settled, one, many) =
                    later (again world cred req k x step) (omega (arith, room)) in
                  (
                    after (waited world cred req k x backoff step) r,
                    rw (e, more, on, e', attempt_loop) refl,
                    keeps,
                    settled,
                    omega arith,
                    inr (elim many [ inl h ↦ omega (arith, h, room) | inr h ↦ omega (arith, h) ]),
                  )
            ]
          ]
    ]

    attempt_loop-Ends :
        (fuel n : ℕ) (step : Step)
        → pos_part policy.max_attempts ≤ n + suc fuel
        → Ends n step (attempt_loop world pow policy run cred req (suc fuel) n step)
    attempt_loop-Ends zero n step h =
        attempt-Ends zero n step (λ t room. absurd (omega (arith, room, h)))
    attempt_loop-Ends (suc fuel) n step h =
        attempt-Ends (suc fuel) n step
          (λ t room. attempt_loop-Ends fuel (n + 1) t (omega (arith, h)))

  module _ (pow : F → F → F) (policy : RetryPolicy F) where
    -- A step always comes back: there is fuel for every attempt that the policy allows. It calls the
    -- upstream at most once where the policy allows fewer than two attempts, and else no more often
    -- than the policy allows; it keeps its id, its node and what it depends on, and it has
    -- succeeded where it leaves no error.
    pub run_step-max_attempts :
        (run : Run F) (step : Step) (ps : PlanStep F)
        → (r : StepRun F) × (run_step world pow policy run step ps ≡ some r)
          × Keeps step r.step
          × Settled r
          × ((calls r.trace ≤ 1) ⊎ (calls r.trace ≤ pos_part policy.max_attempts))
    unfolding run_step calls
    run_step-max_attempts run step ps =
        elim (Option-cases (world.resolve ps.capability ps.provider_id ps.credential_id)) [
          | inl e ↦ (
            record {
              step = record step { status = StepStatus.failed };
              trace = start_trace world pow policy step;
              failure = some (upstream (of_class ErrorClass.permanent "invalid_request"));
            },
            rw (e, run_step) refl,
            (refl, refl, refl),
            (λ h. ground arith),
            inl (omega arith),
          )
          | inr (cred, e) ↦
              elim (Outcome-cases (materialize_inputs world run.workspace_id ps.inputs)) [
                | inr (x, f) ↦ (
                  record {
                    step = started world pow policy step;
                    trace = start_trace world pow policy step;
                    failure = some x;
                  },
                  rw (e, f, run_step) refl,
                  (refl, refl, refl),
                  (λ h. ground arith),
                  inl (omega arith),
                )
                | inl (inputs, f) ↦
                    let (r, e', keeps, settled, one, many) =
                      attempt_loop-Ends pow policy run cred
                        (request_of world pow policy run step ps inputs)
                        (pos_part policy.max_attempts) 0 (started world pow policy step)
                        (omega arith) in
                    (
                      after (start_trace world pow policy step) r,
                      rw (e, f, e', run_step) refl,
                      keeps,
                      settled,
                      elim many [ inl h ↦ inl (omega (arith, h)) | inr h ↦ inr (omega (arith, h)) ],
                    )
              ]
        ]
