-- ===== src/Exec/Engine/Links.antt =====
-- internal/exec/engine.go, `Execute`: the steps are linked by the edges of the canvas before the loop,
-- and the loop keeps the links.
use ic.Prelude.{
  ◌≡◌, refl, sym, ap, ◌∙◌, subst, ◌≢◌, inl, inr, String, false, List, [], ◌∷◌, ◌++◌, none, some,
  arith, same, same_iff, In, In-append, AllDistinct, Bool-cases, Option-cases,
}
use ic.Platform.Float.{Float64}
use ic.Graph.Document.{Document}
use ic.Exec.Plan.{PlanStep, Step}
use ic.Exec.World.{World}
use ic.Exec.StepMap.{depends_on_nodes, by_node, put_step}
use ic.Exec.Engine.{step_ids, link_one, link_steps}
use ic.Exec.Engine.Steps.{nodes, put_step-In, by_node-some, by_node-none, by_node-In}
use ic.Exec.Engine.Order.{Apart}
use ic.Exec.Engine.Turns.{plan_nodes, put_step-Apart}
use ic.Exec.Engine.Feeding.{
  Grows, Grows-refl, Grows-trans, put_step-Grows, LinkedAt, LinkedAt-Grows, depends_on_nodes-In,
}

module _ {F : Type 0} (doc : Document F) where
  module _ ⦃fl : Float64 F⦄ (world : World F) where
    step_ids-In :
        (steps : List Step) (own : String) (deps : List String) (d : Step)
        → AllDistinct (nodes steps)
        → In d steps
        → d.id ≢ own
        → In d.node_id deps
        → In d.id (step_ids world steps own deps)
    step_ids-In steps own [] d dn md apart m = absurd m
    step_ids-In steps own (dep ∷ deps) d dn md apart (inl here) =
        let found : by_node dep steps ≡ some d = rw (sym here) (by_node-In d steps dn md) in
        let differ : same d.id own ≡ false = ground (arith, same_iff d.id own) in
        rw (found, differ, step_ids) (inl refl)
    step_ids-In steps own (dep ∷ deps) d dn md apart (inr later) =
        let ih = step_ids-In steps own deps d dn md apart later in
        elim (Option-cases (by_node dep steps)) [
          | inl gone ↦ rw (gone, step_ids) ih
          | inr (b, found) ↦ elim (Bool-cases (same b.id own)) [
            | inl own_step ↦ rw (found, own_step, step_ids) ih
            | inr other ↦ rw (found, other, step_ids) (inr ih)
          ]
        ]

    -- One step is linked.
    abbrev linked_step : PlanStep F → List Step → Step → Step
    linked_step ps steps s = record s {
      depends_on = s.depends_on ++ step_ids world steps s.id (depends_on_nodes doc ps.node_id);
    }

    link_one-some :
        (ps : PlanStep F) (steps : List Step) (t : Step)
        → link_one world doc ps steps ≡ some t
        → (s : Step) × (by_node ps.node_id steps ≡ some s) × (linked_step ps steps s ≡ t)
    unfolding link_one
    link_one-some ps steps t h = elim (Option-cases (by_node ps.node_id steps)) [
      | inl e ↦ absurd (ground arith)
      | inr (s, e) ↦ (s, e, ground arith)
    ]

    link_one-none :
        (ps : PlanStep F) (steps : List Step)
        → link_one world doc ps steps ≡ none
        → by_node ps.node_id steps ≡ none
    unfolding link_one
    link_one-none ps steps h = elim (Option-cases (by_node ps.node_id steps)) [
      | inl e ↦ e
      | inr (s, e) ↦ absurd (ground arith)
    ]

    put_linked :
        (ps : PlanStep F) (steps : List Step) (s : Step)
        → Apart steps
        → by_node ps.node_id steps ≡ some s
        → let t = linked_step ps steps s in
          Apart (put_step t steps)
          × Grows steps (put_step t steps)
          × LinkedAt doc (put_step t steps) ps.node_id
    put_linked ps steps s apart found =
        let t = linked_step ps steps s in
        let (ms, here) = by_node-some ps.node_id s steps found in
        let grows : Grows steps (put_step t steps) =
          put_step-Grows t s steps apart.1 ms refl refl
            (λ k i. (In-append k s.depends_on _).1 (inl i)) in
        (
          put_step-Apart s t steps apart (subst (λ k. by_node k steps ≡ some s) (sym here) found)
              refl,
          grows,
          λ u d mu md e feeds differ. elim (put_step-In t u steps apart.1 mu) [
            | inr (_, other) ↦ absurd (other (e ∙ sym here))
            | inl same_step ↦
                let (d', md', i, k, _) = grows d md in
                let deps =
                  step_ids-In steps s.id (depends_on_nodes doc ps.node_id) d' apart.1 md'
                    (λ h. differ (i ∙ h ∙ ap (λ (x : Step). x.id) (sym same_step)))
                    (subst (λ x. In x (depends_on_nodes doc ps.node_id)) k
                      (depends_on_nodes-In doc d.node_id ps.node_id feeds)) in
                subst (λ (x : Step). In d.id x.depends_on) (sym same_step)
                  (subst (λ x. In x t.depends_on) (sym i)
                    ((In-append d'.id s.depends_on _).1 (inr deps)))
          ],
        )

    -- Every step of the plan is linked, and no dependency is lost.
    pub link_steps-Linked :
        (plan : List (PlanStep F)) (steps : List Step)
        → Apart steps
        → Grows steps (link_steps world doc plan steps)
          × ((n : String)
              → In n (plan_nodes plan)
              → LinkedAt doc (link_steps world doc plan steps) n)
    unfolding link_steps
    link_steps-Linked [] steps apart = (Grows-refl steps, λ n m. absurd m)
    link_steps-Linked (ps ∷ rest) steps apart = elim (Option-cases (link_one world doc ps steps)) [
      | inl e ↦
          let none_here = link_one-none ps steps e in
          let (g, l) = link_steps-Linked rest steps apart in
          let now : LinkedAt doc steps ps.node_id =
            λ s d ms md k feeds differ. absurd (by_node-none ps.node_id s steps none_here ms k) in
          rw (e, link_steps)
            (
              g,
              λ n m. elim m [
                | inl here ↦
                    subst (LinkedAt doc (link_steps world doc rest steps)) (sym here)
                      (LinkedAt-Grows doc steps _ ps.node_id now g)
                | inr later ↦ l n later
              ],
            )
      | inr (t, e) ↦
          let (s, found, made) = link_one-some ps steps t e in
          let (apart', g, now) : Apart (put_step t steps)
              × Grows steps (put_step t steps)
              × LinkedAt doc (put_step t steps) ps.node_id =
            subst
              (λ (x : Step).
                Apart (put_step x steps)
                × Grows steps (put_step x steps)
                × LinkedAt doc (put_step x steps) ps.node_id)
              made (put_linked ps steps s apart found) in
          let (g', l) = link_steps-Linked rest (put_step t steps) apart' in
          rw (e, link_steps)
            (
              Grows-trans steps _ _ g g',
              λ n m. elim m [
                | inl here ↦
                    subst (LinkedAt doc (link_steps world doc rest (put_step t steps))) (sym here)
                      (LinkedAt-Grows doc (put_step t steps) _ ps.node_id now g')
                | inr later ↦ l n later
              ],
            )
    ]
