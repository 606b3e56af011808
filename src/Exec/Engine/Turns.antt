-- ===== src/Exec/Engine/Turns.antt =====
-- internal/exec/engine.go, `Execute`: the turns of the steps, one after the other.
use ic.Prelude.{
  ◌≡◌, refl, sym, ◌∙◌, subst, ◌≢◌, ◌⊎◌, inl, inr, String, true, false, ◌||◌, List, [], ◌∷◌, ◌++◌,
  none, some, arith, map, In, AllDistinct, Bool-cases, Option-cases,
}
use ic.Platform.Float.{Float64}
use ic.Exec.Plan.{PlanStep, Run, Step, StepStatus, terminal}
use ic.Exec.Retry.{RetryPolicy}
use ic.Exec.World.{World, save_step}
use ic.Exec.Attempts.Count.{Keeps, run_step-max_attempts}
use ic.Exec.StepMap.{by_node, put_step, deps_satisfied, mark_canceled}
use ic.Exec.Engine.{
  Ended, is_run_canceled, execute_one, execute_steps, failed_step, failure_trace, with_trace,
}
use ic.Exec.Engine.Steps.{put_step-nodes, put_step-ids, by_node-some, by_node-none}
use ic.Exec.Engine.Order.{
  ran, Ready, Ordered, Turns, Apart, deps_satisfied-Ready, put_step-Ordered, put_step-Turns,
  mark_canceled-Ordered, mark_canceled-terminal,
}

abbrev pub plan_nodes : {F : Type 0} → List (PlanStep F) → List String
plan_nodes = map (λ ps. ps.node_id)

-- The steps where the loop stops: canceled, with every step at its end, or on to what is left.
abbrev pub Stops : {F : Type 0} → List String → Ended F → Type 0
Stops todo r =
    Ordered r.steps
    × (((r.canceled ≡ true) × ((s : Step) → In s r.steps → terminal s.status ≡ true))
        ⊎ ((r.canceled ≡ false) × Apart r.steps × Turns todo r.steps))

pub put_step-Apart :
    (s t : Step) (steps : List Step)
    → Apart steps
    → by_node t.node_id steps ≡ some s
    → t.id ≡ s.id
    → Apart (put_step t steps)
put_step-Apart s t steps (di, dn) h e = (
  subst AllDistinct (sym (put_step-ids t s steps h e)) di,
  subst AllDistinct (sym (put_step-nodes t steps)) dn,
)

module _ {F : Type 0} ⦃fl : Float64 F⦄ (world : World F) (pow : F → F → F) (policy : RetryPolicy F)
    (run : Run F) where
  module _ (todo : List String) (steps : List Step) (s : Step) (ps : PlanStep F)
      (apart : Apart steps) (ordered : Ordered steps) (turns : Turns (ps.node_id ∷ todo) steps)
      (new : ¬ In ps.node_id todo) (found : by_node ps.node_id steps ≡ some s) where
    -- A change of the step whose turn it is.
    turn :
        (t : Step)
        → Keeps s t
        → (ran t ≡ true → Ready steps s)
        → Ordered (put_step t steps)
          × Apart (put_step t steps)
          × ((terminal t.status ≡ true)
              → (t.status ≡ StepStatus.failed → t.error ≢ none)
              → Turns todo (put_step t steps))
    turn t (ei, en, ed) ready =
        let (ms, es) = by_node-some ps.node_id s steps found in
        let here : t.node_id ≡ ps.node_id = en ∙ es in
        let waits : s.status ≡ StepStatus.pending = elim (turns s ms) [
          | inl (over, _, _) ↦ absurd (over (inl es))
          | inr (_, p) ↦ p
        ] in
        let found' : by_node t.node_id steps ≡ some s = rw here found in
        let turns' : Turns (t.node_id ∷ todo) steps = rw here turns in
        (
          put_step-Ordered steps s t apart ms (sym en) (sym ei) waits ordered
              (λ r d md on. ready r d md (subst (λ l. In d.id l) ed on)),
          put_step-Apart s t steps apart found' ei,
          λ end err.
              put_step-Turns steps s t apart ms (sym en) (sym ei) waits todo turns'
                (inl (rw here new, end, err)),
        )

    execute_one-Stops :
        (r : Ended F) × (execute_one world pow policy run steps s ps ≡ some r) × Stops todo r
    unfolding execute_one terminal
    execute_one-Stops = elim (Bool-cases (deps_satisfied steps s.depends_on)) [
      | inr wait ↦
          let skipped : Step = record s {
            status = StepStatus.skipped;
            finished_at = some world.now;
          } in
          let (o, a, t) = turn skipped (refl, refl, refl) (λ h. ground arith) in
          (
            record {
              steps = put_step skipped steps;
              trace = save_step skipped ∷ [];
              canceled = false;
            },
            rw (wait, execute_one) refl,
            (o, inr (refl, a, t refl (λ h. ground arith))),
          )
      | inl go ↦
          let ready = deps_satisfied-Ready steps s apart go in
          let (r, e, keeps, settled, _) = run_step-max_attempts world pow policy run s ps in
          elim (Option-cases (r.failure)) [
            | inl fine ↦
                let (o, a, t) = turn r.step keeps (λ _. ready) in
                (
                  record { steps = put_step r.step steps; trace = r.trace; canceled = false },
                  rw (go, e, fine, execute_one) refl,
                  (
                    o,
                    inr (refl, a, t (rw (settled fine) refl) (λ h. ground (arith, settled fine))),
                  ),
                )
            | inr (x, f) ↦ elim (Bool-cases (is_run_canceled x || world.ended_after s.id)) [
              | inl cut ↦
                  let (o, a, t) = turn r.step keeps (λ _. ready) in
                  (
                    record {
                      steps = mark_canceled world.now (put_step r.step steps);
                      trace = r.trace;
                      canceled = true;
                    },
                    rw (go, e, f, cut, execute_one) refl,
                    (
                      mark_canceled-Ordered world.now (put_step r.step steps) o,
                      inl (refl, mark_canceled-terminal world.now (put_step r.step steps)),
                    ),
                  )
              | inr on ↦
                  let (o, a, t) = turn (failed_step world r.step x) keeps (λ _. ready) in
                  (
                    record {
                      steps = put_step (failed_step world r.step x) steps;
                      trace = r.trace ++ failure_trace world run (failed_step world r.step x);
                      canceled = false;
                    },
                    rw (go, e, f, on, execute_one) refl,
                    (o, inr (refl, a, t refl (λ _ h. ground arith))),
                  )
            ]
          ]
    ]

  Turns-drop :
      (n : String) (todo : List String) (steps : List Step)
      → by_node n steps ≡ none
      → Turns (n ∷ todo) steps
      → Turns todo steps
  Turns-drop n todo steps gone turns u m = elim (turns u m) [
    | inl (over, end, err) ↦ inl ((λ later. over (inr later)), end, err)
    | inr (inl here, p) ↦ absurd (by_node-none n u steps gone m here)
    | inr (inr later, p) ↦ inr (later, p)
  ]

  pub execute_steps-Stops :
      (plan : List (PlanStep F)) (steps : List Step)
      → AllDistinct (plan_nodes plan)
      → Apart steps
      → Ordered steps
      → Turns (plan_nodes plan) steps
      → (r : Ended F) × (execute_steps world pow policy run plan steps ≡ some r) × Stops [] r
  unfolding execute_steps
  execute_steps-Stops [] steps _ apart ordered turns = (
    record { steps = steps; trace = []; canceled = false },
    refl,
    (ordered, inr (refl, apart, turns)),
  )
  execute_steps-Stops (ps ∷ rest) steps (new, d) apart ordered turns =
      elim (Option-cases (by_node ps.node_id steps)) [
        | inl gone ↦
            let (r, e, s) =
              execute_steps-Stops rest steps d apart ordered
                (Turns-drop ps.node_id (plan_nodes rest) steps gone turns) in
            (r, rw (gone, execute_steps) e, s)
        | inr (s, found) ↦
            let (r, e, (o, stops)) =
              execute_one-Stops (plan_nodes rest) steps s ps apart ordered turns new found in
            elim stops [
              | inl (cut, over) ↦ (r, rw (found, e, cut, execute_steps) refl, (o, inl (cut, over)))
              | inr (on, a, t) ↦
                  let (q, f, end) = execute_steps-Stops rest r.steps d a o t in
                  (with_trace r.trace q, rw (found, e, on, f, execute_steps) refl, end)
            ]
      ]
