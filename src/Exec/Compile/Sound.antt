-- ===== src/Exec/Compile/Sound.antt =====
-- internal/exec/compiler.go, `Compile`: the plans that it makes, and how they run.
use text.Mathlib.TextLemmas.{append_cancel_left}
use ic.Prelude.{
  ◌≤◌, ◌≡◌, refl, sym, ap, ◌∙◌, subst, ◌⊎◌, inl, inr, String, true, false, List, [], ◌∷◌, none,
  some, arith, length, concat, In, In-map, In-map_inv, AllDistinct, AllDistinct-sort_strings,
  length-map, length-sort_strings,
}
use ic.Platform.Float.{Float64}
use ic.Graph.Document.{Document, Node, find_node}
use ic.Exec.Plan.{Plan, PlanStep, Run, Step, terminal}
use ic.Exec.Retry.{RetryPolicy}
use ic.Exec.World.{World}
use ic.Exec.Collect.{
  CompileError, Collected, went, broke, out_of_fuel, CredentialFor, collect_targets, max_dag_nodes,
}
use ic.Exec.Collect.Steps.{IsGood, Leaves, step_nodes}
use ic.Exec.Collect.Fuel.{collect_targets-IsGood}
use ic.Exec.Sort.Plain.{plan_ids, IsPlain, topo_sort-sort_strings}
use ic.Exec.Inputs.{Resolved, resolved, refused, resolve_inputs}
use ic.Exec.Compile.{
  Compiled, compiled, rejected, invalid, endless, compile, order_steps, resolve_steps,
}
use ic.Exec.Engine.{Executed, execute}
use ic.Exec.Engine.Order.{Ordered}
use ic.Exec.Engine.Edges.{Fed, execute-Fed}

Resolved-cases :
    {A : Type 0} (r : Resolved A)
    → ((a : A) × (r ≡ resolved a)) ⊎ ((e : CompileError) × (r ≡ refused e))
Resolved-cases (resolved a) = inl (a, refl)
Resolved-cases (refused e) = inr (e, refl)

-- A plan that can be run: few steps, each of its own node, in the order of their ids.
pub record IsSound {F : Type 0} (plan : Plan F) : Type 0 where
  pub some_steps : 1 ≤ length plan.steps
  pub few : length plan.steps ≤ max_dag_nodes
  pub nodes_apart : AllDistinct (step_nodes plan.steps)
  pub ids_apart : AllDistinct (plan_ids plan.steps)
  pub order : plan.order ≡ plan_ids plan.steps
  pub plain : IsPlain plan.steps

module _ {F : Type 0} where
  abbrev IsNamed : List (PlanStep F) → Type 0
  IsNamed steps =
      (s : PlanStep F) → In s steps → (s.id ≡ concat "st_" s.node_id) × (s.depends_on ≡ [])

  ids-apart :
      (steps : List (PlanStep F))
      → IsNamed steps
      → AllDistinct (step_nodes steps)
      → AllDistinct (plan_ids steps)
  ids-apart [] named d = tt
  ids-apart (s ∷ steps) named (fresh, d) = (
    (λ m.
        let (t, mt, e) = In-map_inv (λ (x : PlanStep F). x.id) s.id steps m in
        let same_text = sym (named s (inl refl)).0 ∙ e ∙ (named t (inr mt)).0 in
        let same_node = append_cancel_left "st_" s.node_id t.node_id same_text in
        fresh (
          subst (λ k. In k (step_nodes steps)) (sym same_node)
            (In-map (λ (x : PlanStep F). x.node_id) t steps mt))),
    ids-apart steps (λ t m. named t (inr m)) d,
  )

  nodes-apart :
      (steps : List (PlanStep F))
      → IsNamed steps
      → AllDistinct (plan_ids steps)
      → AllDistinct (step_nodes steps)
  nodes-apart [] named d = tt
  nodes-apart (s ∷ steps) named (fresh, d) = (
    (λ m.
        let (t, mt, e) = In-map_inv (λ (x : PlanStep F). x.node_id) s.node_id steps m in
        let same_id =
          (named s (inl refl)).0 ∙ ap (λ n. concat "st_" n) e ∙ sym (named t (inr mt)).0 in
        fresh (
          subst (λ k. In k (plan_ids steps)) (sym same_id)
            (In-map (λ (x : PlanStep F). x.id) t steps mt))),
    nodes-apart steps (λ t m. named t (inr m)) d,
  )

  -- The steps that are given their inputs stay what they are.
  abbrev Same : List (PlanStep F) → List (PlanStep F) → Type 0
  Same steps out =
      (plan_ids out ≡ plan_ids steps)
      × (step_nodes out ≡ step_nodes steps)
      × (IsPlain steps → IsPlain out)

  resolve_steps-Same :
      (doc : Document F) (steps : List (PlanStep F))
      → ((e : CompileError) × (resolve_steps doc steps ≡ refused e))
        ⊎ ((out : List (PlanStep F)) × (resolve_steps doc steps ≡ resolved out) × Same steps out)
  unfolding resolve_steps
  resolve_steps-Same doc [] = inr ([], refl, (refl, refl, λ p. p))
  resolve_steps-Same doc (s ∷ steps) = elim (Resolved-cases (resolve_inputs doc s)) [
    | inr (e, f) ↦ inl (e, rw (f, resolve_steps) refl)
    | inl (inputs, f) ↦ elim (resolve_steps-Same doc steps) [
      | inl (e, g) ↦ inl (e, rw (f, g, resolve_steps) refl)
      | inr (out, g, (i, n, p)) ↦ inr (
        record s { inputs = inputs } ∷ out,
        rw (f, g, resolve_steps) refl,
        (
          ap (λ l. s.id ∷ l) i,
          ap (λ l. s.node_id ∷ l) n,
          λ plain t m. elim m [
            | inl e ↦ ap (λ (x : PlanStep F). x.depends_on) e ∙ plain s (inl refl)
            | inr m' ↦ p (λ u mu. plain u (inr mu)) t m'
          ],
        ),
      )
    ]
  ]

  -- What the order of the steps and their inputs come to.
  abbrev pub Ends : Compiled F → Type 0
  Ends (compiled plan) = IsSound plan
  Ends (rejected e) = Unit
  Ends (invalid e) = Unit
  Ends endless = ⊥

  order_steps-Ends :
      (doc : Document F) (steps : List (PlanStep F))
      → IsNamed steps
      → AllDistinct (step_nodes steps)
      → length steps ≤ max_dag_nodes
      → Ends (order_steps doc steps)
  unfolding order_steps
  order_steps-Ends doc [] named apart few = tt
  order_steps-Ends doc (s ∷ steps) named apart few =
      let all = s ∷ steps in
      let (r, e, names, from) =
        topo_sort-sort_strings all (λ t m. (named t m).1) (ids-apart all named apart) in
      elim (resolve_steps-Same doc r) [
        | inl (x, f) ↦ rw (e, f, order_steps) tt
        | inr (out, f, (i, n, p)) ↦
            let sorted_apart =
              AllDistinct-sort_strings (plan_ids all) (ids-apart all named apart) in
            let r_apart = subst AllDistinct (sym names) sorted_apart in
            let size =
              sym (length-map (λ (x : PlanStep F). x.id) out)
              ∙ ap length (i ∙ names)
              ∙ length-sort_strings (plan_ids all)
              ∙ length-map (λ (x : PlanStep F). x.id) all in
            rw (e, f, order_steps)
              (record {
                some_steps = omega (arith, size);
                few = omega (arith, size, few);
                nodes_apart =
                    subst AllDistinct (sym n) (nodes-apart r (λ t m. named t (from t m)) r_apart);
                ids_apart = subst AllDistinct (sym i) r_apart;
                order = sym i;
                plain = p (λ t m. (named t (from t m)).1);
              })
      ]

module _ {F : Type 0} ⦃fl : Float64 F⦄ (credential_for : CredentialFor) (doc : Document F)
    (keyed : (k : String) (n : Node F) → find_node doc k ≡ some n → n.id ≡ k) where
  -- Where every node stands under its own id, a compile always ends, whatever the edges, the groups and
  -- the targets are: with an error, or with a plan of 1 to 500 steps, no two of the same node or with the
  -- same id, that depend on nothing yet, and whose order is theirs.
  pub compile-IsSound : (targets : List String) → Ends (compile credential_for doc targets)
  unfolding compile
  compile-IsSound [] = tt
  compile-IsSound (t ∷ targets) =
      go (collect_targets credential_for doc (t ∷ targets))
        (collect_targets-IsGood credential_for doc keyed (t ∷ targets))
    where
      go :
          (c : Collected F)
          → Leaves IsGood c
          → Ends (elim c [
            | out_of_fuel ↦ endless
            | broke e ↦ rejected e
            | went st ↦ order_steps doc st.steps
          ])
      go (went st) good = order_steps-Ends doc st.steps good.named good.apart good.few
      go (broke e) good = tt
      go out_of_fuel good = good

  -- Where every node stands under its own id, a plan that is compiled can be executed: if the first save
  -- of the run works, `Execute` comes back. A step that has succeeded or failed did so after all that
  -- it depends on had succeeded, and after the other steps of the run whose nodes have an edge of the
  -- canvas to its node had succeeded. If the run is not canceled before its first step, every step is
  -- at its end.
  pub compile-execute :
      (world : World F) (pow : F → F → F) (policy : RetryPolicy F) (run : Run F)
      (targets : List String) (plan : Plan F)
      → compile credential_for doc targets ≡ compiled plan
      → world.first_save ≡ none
      → (x : Executed F) × (execute world pow policy run plan doc ≡ some x)
        × Ordered x.run.steps
        × Fed doc x.run.steps
        × (world.ended_at_start ≡ false → (s : Step) → In s x.run.steps → terminal s.status ≡ true)
  compile-execute world pow policy run targets plan h saves =
      let sound : IsSound plan = subst Ends h (compile-IsSound targets) in
      execute-Fed world pow policy run plan doc sound.ids_apart sound.nodes_apart saves
