-- ===== src/Exec/Engine/Edges.antt =====
-- internal/exec/engine.go, `Execute`: what runs had what its node is fed by.
use ic.Prelude.{
  ◌≡◌, refl, sym, ap, ◌∙◌, subst, ◌≢◌, ◌||◌, map, inl, inr, true, false, List, [], ◌∷◌, Option,
  none, some, arith, ℕ, In, In-map, In-map_inv, AllDistinct, Bool-cases, Option-cases,
}
use ic.Platform.Float.{Float64}
use ic.Graph.Document.{Document}
use ic.Exec.Plan.{Plan, PlanStep, Run, Step, StepStatus, terminal, recompute_usage}
use ic.Exec.Retry.{RetryPolicy}
use ic.Exec.World.{World}
use ic.Exec.Attempts.Count.{Keeps, run_step-max_attempts}
use ic.Exec.StepMap.{by_node, put_step, deps_satisfied, mark_canceled, cancel_step}
use ic.Exec.Engine.{
  Ended, Executed, is_run_canceled, execute_one, execute_steps, execute, failed_step, with_trace,
  steps_of, begun, finish_run, new_step, saved, conclude, cut_at_start,
}
use ic.Exec.Sort.Plain.{plan_ids}
use ic.Exec.Engine.Steps.{nodes, put_step-nodes, by_node-some}
use ic.Exec.Engine.Order.{ran, Ordered, cancel_step-status}
use ic.Exec.Engine.Turns.{plan_nodes}
use ic.Exec.Engine.Finish.{conclude-steps, execute-Ordered, steps_of-Pending, new_steps-Apart}
use ic.Exec.Engine.Feeding.{Grows, Grows-refl, Grows-trans, put_step-Grows, Feeds, LinkedAt-Grows}
use ic.Exec.Engine.Links.{link_steps-Linked}

cancel_step-node : (now : ℕ) (s : Step) → (cancel_step now s).node_id ≡ s.node_id
cancel_step-node now s = ground arith

mark_canceled-Grows : (now : ℕ) (steps : List Step) → Grows steps (mark_canceled now steps)
unfolding mark_canceled
mark_canceled-Grows now steps u m =
    let (v, mv, e) = In-map_inv (cancel_step now) u steps m in
    let same_id = ap (λ (x : Step). x.id) e ∙ (cancel_step-status now v).0 in
    let deps = ap (λ (x : Step). x.depends_on) e ∙ (cancel_step-status now v).1 in
    (
      v,
      mv,
      same_id,
      ap (λ (x : Step). x.node_id) e ∙ cancel_step-node now v,
      λ k h. subst (λ l. In k l) (sym deps) h,
    )

-- What a part of the loop leaves of the steps.
abbrev After : {F : Type 0} → List Step → Option (Ended F) → Type 0
After steps none = Unit
After steps (some r) = Grows steps r.steps × (r.canceled ≡ false → nodes r.steps ≡ nodes steps)

module _ {F : Type 0} ⦃fl : Float64 F⦄ (world : World F) (pow : F → F → F) (policy : RetryPolicy F)
    (run : Run F) where
  execute_one-After :
      (steps : List Step) (s : Step) (ps : PlanStep F)
      → AllDistinct (nodes steps)
      → In s steps
      → After steps (execute_one world pow policy run steps s ps)
  unfolding execute_one
  execute_one-After steps s ps dn ms =
      let put : (t : Step)
          → Keeps s t
          → Grows steps (put_step t steps) × (nodes (put_step t steps) ≡ nodes steps) =
        λ t (i, n, d). (
          put_step-Grows t s steps dn ms i n (λ k h. subst (λ l. In k l) (sym d) h),
          put_step-nodes t steps,
        ) in
      elim (Bool-cases (deps_satisfied steps s.depends_on)) [
        | inr wait ↦
            let skipped : Step = record s {
              status = StepStatus.skipped;
              finished_at = some world.now;
            } in
            let (g, n) = put skipped (refl, refl, refl) in rw (wait, execute_one) (g, λ _. n)
        | inl go ↦
            let (r, e, keeps, _, _) = run_step-max_attempts world pow policy run s ps in
            elim (Option-cases (r.failure)) [
              | inl fine ↦
                  let (g, n) = put r.step keeps in rw (go, e, fine, execute_one) (g, λ _. n)
              | inr (x, f) ↦ elim (Bool-cases (is_run_canceled x || world.ended_after s.id)) [
                | inl cut ↦
                    let (g, _) = put r.step keeps in
                    let steps' = put_step r.step steps in
                    rw (go, e, f, cut, execute_one)
                      (
                        Grows-trans steps steps' _ g (mark_canceled-Grows world.now steps'),
                        λ h. ground arith,
                      )
                | inr on ↦
                    let (g, n) = put (failed_step world r.step x) keeps in
                    rw (go, e, f, on, execute_one) (g, λ _. n)
              ]
            ]
      ]

  execute_steps-Grows :
      (plan : List (PlanStep F)) (steps : List Step) (r : Ended F)
      → AllDistinct (nodes steps)
      → execute_steps world pow policy run plan steps ≡ some r
      → Grows steps r.steps
  unfolding execute_steps
  execute_steps-Grows [] steps r dn h =
      let e : steps ≡ r.steps = ground arith in subst (Grows steps) e (Grows-refl steps)
  execute_steps-Grows (ps ∷ rest) steps r dn h = elim (Option-cases (by_node ps.node_id steps)) [
    | inl gone ↦ execute_steps-Grows rest steps r dn (rw (gone, execute_steps) at h)
    | inr (s, found) ↦
        let (ms, _) = by_node-some ps.node_id s steps found in
        let left = execute_one-After steps s ps dn ms in
        elim (Option-cases (execute_one world pow policy run steps s ps)) [
          | inl out ↦ absurd (ground arith)
          | inr (q, went) ↦
              let (g, n) : After steps (some q) = subst (After steps) went left in
              elim (Bool-cases q.canceled) [
                | inl cut ↦
                    let e : q ≡ r = ground arith in subst (λ (x : Ended F). Grows steps x.steps) e g
                | inr on ↦ elim (Option-cases (execute_steps world pow policy run rest q.steps)) [
                  | inl out ↦ absurd (ground arith)
                  | inr (later, f) ↦
                      let e : with_trace q.trace later ≡ r = ground arith in
                      let g' =
                        execute_steps-Grows rest q.steps later (subst AllDistinct (sym (n on)) dn)
                          f in
                      subst (λ (x : Ended F). Grows steps x.steps) e
                        (Grows-trans steps q.steps later.steps g g')
                ]
              ]
        ]
  ]

-- What feeds the node of a step is what the step depends on.
abbrev Linked : {F : Type 0} → Document F → List Step → Type 0
Linked doc steps =
    (s d : Step)
    → In s steps
    → In d steps
    → Feeds doc d.node_id s.node_id
    → d.id ≢ s.id
    → In d.id s.depends_on

-- A step that ran was fed: the other steps whose nodes have an edge to its node had succeeded.
abbrev pub Fed : {F : Type 0} → Document F → List Step → Type 0
Fed doc steps =
    (s d : Step)
    → In s steps
    → In d steps
    → ran s ≡ true
    → Feeds doc d.node_id s.node_id
    → d.id ≢ s.id
    → d.status ≡ StepStatus.succeeded

module _ {F : Type 0} ⦃fl : Float64 F⦄ (world : World F) (pow : F → F → F) (policy : RetryPolicy F)
    (run : Run F) (plan : Plan F) (doc : Document F) (di : AllDistinct (plan_ids plan.steps))
    (dn : AllDistinct (plan_nodes plan.steps)) (saves : world.first_save ≡ none) where
  Grows-Linked : (steps : List Step) → Grows (steps_of world plan doc) steps → Linked doc steps
  Grows-Linked steps grows s d ms md feeds differ =
      let (apart, same_nodes) = new_steps-Apart world plan.steps di dn in
      let begun_steps = map (new_step world) plan.steps in
      let (g, linked) = link_steps-Linked doc world plan.steps begun_steps apart in
      let (v, mv, _, n, _) = Grows-trans begun_steps _ steps g grows s ms in
      let there : In s.node_id (plan_nodes plan.steps) =
        subst (λ k. In k (plan_nodes plan.steps)) (sym n)
          (subst (In v.node_id) same_nodes (In-map (λ (x : Step). x.node_id) v begun_steps mv)) in
      LinkedAt-Grows doc (steps_of world plan doc) steps s.node_id (linked s.node_id there) grows s
        d ms md refl feeds differ

  abbrev EndsLinked : Option (Executed F) → Type 0
  EndsLinked none = Unit
  EndsLinked (some x) = Linked doc x.run.steps

  execute-EndsLinked : EndsLinked (execute world pow policy run plan doc)
  unfolding execute finish_run recompute_usage
  execute-EndsLinked =
      let start = steps_of world plan doc in
      let (_, apart, _) = steps_of-Pending world plan doc di dn in
      elim (Bool-cases world.ended_at_start) [
        | inl cut ↦
            let ends : execute world pow policy run plan doc
                ≡ some (cut_at_start world run plan doc) =
              simp (saves, cut, execute) refl in
            subst EndsLinked (sym ends) (Grows-Linked start (Grows-refl start))
        | inr on ↦
            elim (Option-cases
              (execute_steps world pow policy (begun world run) plan.steps start)) [
                | inl out ↦
                    let ends : execute world pow policy run plan doc ≡ none =
                      simp (saves, on, out, execute) refl in
                    subst EndsLinked (sym ends) tt
                | inr (r, e) ↦
                    let grows =
                      execute_steps-Grows world pow policy (begun world run) plan.steps start r
                        apart.1 e in
                    let ended = with_trace (saved world plan doc) r in
                    let kept = conclude-steps world (begun world run) ended in
                    let ends : execute world pow policy run plan doc
                        ≡ some (conclude world (begun world run) ended) =
                      simp (saves, on, e, execute) refl in
                    subst EndsLinked (sym ends)
                      (subst (Linked doc) (sym kept) (Grows-Linked r.steps grows))
              ]
      ]

  pub execute-Fed :
      (x : Executed F) × (execute world pow policy run plan doc ≡ some x)
      × Ordered x.run.steps
      × Fed doc x.run.steps
      × (world.ended_at_start ≡ false → (s : Step) → In s x.run.steps → terminal s.status ≡ true)
  execute-Fed =
      let (x, e, ordered, over) = execute-Ordered world pow policy run plan doc di dn saves in
      let linked : Linked doc x.run.steps = subst EndsLinked e execute-EndsLinked in
      (
        x,
        e,
        ordered,
        (λ s d ms md r feeds differ. ordered s ms r d md (linked s d ms md feeds differ)),
        over,
      )
