-- ===== src/Exec/Engine/Finish.antt =====
-- internal/exec/engine.go, `Execute`: how a run begins and what it ends with.
use ic.Prelude.{
  ◌≡◌, refl, sym, ap, ◌∙◌, subst, inl, inr, true, false, List, [], ◌∷◌, none, some, arith, map, In,
  In-map, In-map_inv, AllDistinct, Bool-cases, Option-cases,
}
use ic.Platform.Float.{Float64}
use ic.Graph.Document.{Document}
use ic.Exec.Plan.{Plan, PlanStep, Run, Step, StepStatus, terminal, recompute_usage}
use ic.Exec.Retry.{RetryPolicy}
use ic.Exec.World.{World}
use ic.Exec.StepMap.{by_node, put_step}
use ic.Exec.Engine.{
  link_one, link_steps, steps_of, new_step, Executed, execute, conclude, finish_run, Ended, begun,
  saved, cut_at_start, with_trace, execute_steps,
}
use ic.Exec.Sort.Plain.{plan_ids}
use ic.Exec.Engine.Steps.{nodes, ids, put_step-In, put_step-nodes, put_step-ids, by_node-some}
use ic.Exec.Engine.Order.{Ordered, Turns, Apart}
use ic.Exec.Engine.Turns.{Stops, plan_nodes, put_step-Apart, execute_steps-Stops}

abbrev pub Pending : List Step → Type 0
Pending steps = (s : Step) → In s steps → s.status ≡ StepStatus.pending

module _ {F : Type 0} ⦃fl : Float64 F⦄ (world : World F) where
  link_one-some :
      (doc : Document F) (ps : PlanStep F) (steps : List Step) (t : Step)
      → link_one world doc ps steps ≡ some t
      → (s : Step) × (by_node t.node_id steps ≡ some s) × (t.id ≡ s.id) × (t.status ≡ s.status)
  unfolding link_one
  link_one-some doc ps steps t h = elim (Option-cases (by_node ps.node_id steps)) [
    | inl e ↦ ground arith
    | inr (s, e) ↦
        let (_, here) = by_node-some ps.node_id s steps e in
        (s, ground (arith, here), ground arith, ground arith)
  ]

  link_steps-Pending :
      (doc : Document F) (plan : List (PlanStep F)) (steps : List Step)
      → Apart steps
      → Pending steps
      → Pending (link_steps world doc plan steps)
        × (nodes (link_steps world doc plan steps) ≡ nodes steps)
        × (ids (link_steps world doc plan steps) ≡ ids steps)
  unfolding link_steps
  link_steps-Pending doc [] steps apart p = (p, refl, refl)
  link_steps-Pending doc (ps ∷ rest) steps apart p =
      elim (Option-cases (link_one world doc ps steps)) [
        | inl e ↦ rw (e, link_steps) (link_steps-Pending doc rest steps apart p)
        | inr (t, e) ↦
            let (s, found, same_id, same_status) = link_one-some doc ps steps t e in
            let apart' = put_step-Apart s t steps apart found same_id in
            let p' : Pending (put_step t steps) = λ u mu. elim (put_step-In t u steps apart.1 mu) [
              | inl f ↦ rw f (same_status ∙ p s (by_node-some t.node_id s steps found).0)
              | inr (m, _) ↦ p u m
            ] in
            let (q, n, i) = link_steps-Pending doc rest (put_step t steps) apart' p' in
            rw (e, link_steps)
              (q, n ∙ put_step-nodes t steps, i ∙ put_step-ids t s steps found same_id)
      ]

  new_step-Pending : (plan : List (PlanStep F)) → Pending (map (new_step world) plan)
  new_step-Pending plan s m = let (ps, _, e) = In-map_inv (new_step world) s plan m in rw e refl

  map-nodes : (plan : List (PlanStep F)) → nodes (map (new_step world) plan) ≡ plan_nodes plan
  map-nodes [] = refl
  map-nodes (ps ∷ plan) = ap (λ l. ps.node_id ∷ l) (map-nodes plan)

  map-ids : (plan : List (PlanStep F)) → ids (map (new_step world) plan) ≡ plan_ids plan
  map-ids [] = refl
  map-ids (ps ∷ plan) = ap (λ l. ps.id ∷ l) (map-ids plan)

  pub new_steps-Apart :
      (plan : List (PlanStep F))
      → AllDistinct (plan_ids plan)
      → AllDistinct (plan_nodes plan)
      → Apart (map (new_step world) plan) × (nodes (map (new_step world) plan) ≡ plan_nodes plan)
  new_steps-Apart plan di dn = (
    (subst AllDistinct (sym (map-ids plan)) di, subst AllDistinct (sym (map-nodes plan)) dn),
    map-nodes plan,
  )

  -- The steps that a run begins with.
  pub steps_of-Pending :
      (plan : Plan F) (doc : Document F)
      → AllDistinct (plan_ids plan.steps)
      → AllDistinct (plan_nodes plan.steps)
      → Pending (steps_of world plan doc)
        × Apart (steps_of world plan doc)
        × (nodes (steps_of world plan doc) ≡ plan_nodes plan.steps)
  steps_of-Pending plan doc di dn =
      let (apart, _) = new_steps-Apart plan.steps di dn in
      let (p, n, i) =
        link_steps-Pending doc plan.steps (map (new_step world) plan.steps) apart
          (new_step-Pending plan.steps) in
      (
        p,
        (subst AllDistinct (sym i) apart.0, subst AllDistinct (sym n) apart.1),
        n ∙ map-nodes plan.steps,
      )

  pub conclude-steps : (run : Run F) (r : Ended F) → (conclude world run r).run.steps ≡ r.steps
  unfolding conclude finish_run recompute_usage
  conclude-steps run r = ground arith

  module _ (pow : F → F → F) (policy : RetryPolicy F) (run : Run F) (plan : Plan F)
      (doc : Document F) (di : AllDistinct (plan_ids plan.steps))
      (dn : AllDistinct (plan_nodes plan.steps)) (saves : world.first_save ≡ none) where
    -- A run that is not canceled before its first step ends with what the loop leaves.
    pub execute-conclude :
        world.ended_at_start ≡ false
        → (r : Ended F) × (execute world pow policy run plan doc
            ≡ some (conclude world (begun world run) (with_trace (saved world plan doc) r)))
          × (execute_steps world pow policy (begun world run) plan.steps (steps_of world plan doc)
              ≡ some r)
          × Stops [] r
    unfolding execute
    execute-conclude on =
        let (p, apart, n) = steps_of-Pending plan doc di dn in
        let ordered : Ordered (steps_of world plan doc) = λ s m r. ground (arith, p s m) in
        let turns : Turns (plan_nodes plan.steps) (steps_of world plan doc) = λ s m.
          inr (subst (λ l. In s.node_id l) n (In-map (λ (x : Step). x.node_id) s _ m), p s m) in
        let (r, e, stops) =
          execute_steps-Stops world pow policy (begun world run) plan.steps
            (steps_of world plan doc) dn apart ordered turns in
        (r, simp (saves, on, e, execute) refl, e, stops)

    -- Where no id and no node stands twice in the plan and the first save of the run works, `Execute`
    -- comes back, whatever the upstream, the storage and the canvas do. A step of the run that
    -- succeeded or failed was given to the upstream after everything it depends on in the run had
    -- succeeded; and unless the run is canceled before its first step, every step is at its end.
    pub execute-Ordered :
        (x : Executed F) × (execute world pow policy run plan doc ≡ some x)
        × Ordered x.run.steps
        × (world.ended_at_start ≡ false → (s : Step) → In s x.run.steps → terminal s.status ≡ true)
    unfolding execute finish_run recompute_usage
    execute-Ordered = elim (Bool-cases world.ended_at_start) [
      | inl cut ↦
          let (p, _, _) = steps_of-Pending plan doc di dn in
          (
            cut_at_start world run plan doc,
            simp (saves, cut, execute) refl,
            (λ s m r. ground (arith, p s m)),
            λ on. ground arith,
          )
      | inr on ↦
          let (r, e, _, (o, stops)) = execute-conclude on in
          let ended = with_trace (saved world plan doc) r in
          let kept = conclude-steps (begun world run) ended in
          (
            conclude world (begun world run) ended,
            e,
            rw kept o,
            λ _. rw kept (elim stops [
              | inl (_, over) ↦ over
              | inr (_, _, t) ↦
                  λ s m. elim (t s m) [ inl (_, end, _) ↦ end | inr (nowhere, _) ↦ absurd nowhere ]
            ]),
          )
    ]
