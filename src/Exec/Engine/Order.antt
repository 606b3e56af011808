-- ===== src/Exec/Engine/Order.antt =====
-- internal/exec/engine.go, `Execute`: what its loop over the plan keeps, and that it ends.
use ic.Prelude.{
  ◌≡◌, sym, ap, ◌∙◌, subst, ◌≢◌, ◌⊎◌, inl, inr, String, Bool, true, ◌||◌, List, [], ◌∷◌, none, ℕ,
  arith, In, In-map_inv, AllDistinct,
}
use ic.Exec.Plan.{Step, StepStatus, terminal}
use ic.Exec.StepMap.{
  put_step, is_succeeded, is_failed, dep_satisfied, deps_satisfied, mark_canceled, cancel_step,
}
use ic.Exec.Engine.Steps.{nodes, ids, put_step-In, by_id-In}

-- A step that has been given to the upstream, with or without a result.
abbrev pub ran : Step → Bool
ran s = is_succeeded s.status || is_failed s.status

-- All that a step depends on among the steps has succeeded.
abbrev pub Ready : List Step → Step → Type 0
Ready steps s = (d : Step) → In d steps → In d.id s.depends_on → d.status ≡ StepStatus.succeeded

-- What has run was ready.
abbrev pub Ordered : List Step → Type 0
Ordered steps = (s : Step) → In s steps → ran s ≡ true → Ready steps s

-- A step is done with, with its error if it failed, or it waits for its turn.
abbrev pub Turned : List String → Step → Type 0
Turned todo s =
    (¬ In s.node_id todo
      × (terminal s.status ≡ true)
      × (s.status ≡ StepStatus.failed → s.error ≢ none))
    ⊎ (In s.node_id todo × (s.status ≡ StepStatus.pending))

abbrev pub Turns : List String → List Step → Type 0
Turns todo steps = (s : Step) → In s steps → Turned todo s

-- No id and no node stands twice among the steps.
abbrev pub Apart : List Step → Type 0
Apart steps = AllDistinct (ids steps) × AllDistinct (nodes steps)

deps_satisfied-In :
    (steps : List Step) (deps : List String) (dep : String)
    → deps_satisfied steps deps ≡ true
    → In dep deps
    → dep_satisfied steps dep ≡ true
unfolding deps_satisfied
deps_satisfied-In steps [] dep h m = absurd m
deps_satisfied-In steps (d ∷ deps) dep h (inl e) = rw e (ground arith)
deps_satisfied-In steps (d ∷ deps) dep h (inr m) = deps_satisfied-In steps deps dep (ground arith) m

pub deps_satisfied-Ready :
    (steps : List Step) (s : Step)
    → Apart steps
    → deps_satisfied steps s.depends_on ≡ true
    → Ready steps s
deps_satisfied-Ready steps s (di, dn) h d m on =
    let ok = deps_satisfied-In steps s.depends_on d.id h on in
    let found = by_id-In d steps di dn m in ground (arith, ok, found)

module _ (steps : List Step) (s t : Step) (apart : Apart steps) (ms : In s steps)
    (en : s.node_id ≡ t.node_id) (ei : s.id ≡ t.id) (waits : s.status ≡ StepStatus.pending) where
  -- A step that waited was not what another step was ready by.
  put_step-Ready : (u : Step) → Ready steps u → Ready (put_step t steps) u
  put_step-Ready u ready d md on = elim (put_step-In t d steps apart.1 md) [
    | inl e ↦
        let on' = subst (λ i. In i u.depends_on) (ap (λ (x : Step). x.id) e ∙ sym ei) on in
        ground (arith, ready s ms on', waits)
    | inr (m, _) ↦ ready d m on
  ]

  pub put_step-Ordered : Ordered steps → (ran t ≡ true → Ready steps t) → Ordered (put_step t steps)
  put_step-Ordered ordered ready u mu r = elim (put_step-In t u steps apart.1 mu) [
    | inl e ↦ put_step-Ready u (rw e (ready (rw (sym e) r)))
    | inr (m, _) ↦ put_step-Ready u (ordered u m r)
  ]

  pub put_step-Turns :
      (todo : List String)
      → Turns (t.node_id ∷ todo) steps
      → Turned todo t
      → Turns todo (put_step t steps)
  put_step-Turns todo turns turned u mu = elim (put_step-In t u steps apart.1 mu) [
    | inl e ↦ rw e turned
    | inr (m, other) ↦ elim (turns u m) [
      | inl (over, end, err) ↦ inl ((λ later. over (inr later)), end, err)
      | inr (inl same_node, p) ↦ absurd (other same_node)
      | inr (inr later, p) ↦ inr (later, p)
    ]
  ]

pub cancel_step-status :
    (now : ℕ) (s : Step)
    → let t = cancel_step now s in
      (t.id ≡ s.id)
      × (t.depends_on ≡ s.depends_on)
      × (terminal t.status ≡ true)
      × ((ran t ≡ true) → ran s ≡ true)
      × ((s.status ≡ StepStatus.succeeded) → t.status ≡ StepStatus.succeeded)
unfolding terminal
cancel_step-status now s = ground arith

pub mark_canceled-Ordered :
    (now : ℕ) (steps : List Step) → Ordered steps → Ordered (mark_canceled now steps)
unfolding mark_canceled
mark_canceled-Ordered now steps ordered u mu r d md on =
    let (v, mv, e) = In-map_inv (cancel_step now) u steps mu in
    let (w, mw, f) = In-map_inv (cancel_step now) d steps md in
    let (_, deps, _, was, _) = cancel_step-status now v in
    let (same_id, _, _, _, keeps) = cancel_step-status now w in
    let on' =
      subst (λ i. In i v.depends_on) (ap (λ (x : Step). x.id) f ∙ same_id)
        (subst (λ l. In d.id l) (ap (λ (x : Step). x.depends_on) e ∙ deps) on) in
    rw f (keeps (ordered v mv (was (rw (sym e) r)) w mw on'))

pub mark_canceled-terminal :
    (now : ℕ) (steps : List Step) (s : Step)
    → In s (mark_canceled now steps)
    → terminal s.status ≡ true
unfolding mark_canceled
mark_canceled-terminal now steps s m =
    let (v, mv, e) = In-map_inv (cancel_step now) s steps m in
    let (_, _, over, _, _) = cancel_step-status now v in rw e over
