-- ===== src/Exec/Engine/Steps.antt =====
-- internal/exec/engine.go: the map `byNode` of the steps of a run, read and changed.
use ic.Prelude.{
  ◌≡◌, refl, sym, ap, subst, ◌∙◌, ◌≢◌, ◌⊎◌, ◌↔◌, inl, inr, String, true, false, List, [], ◌∷◌, none,
  some, arith, map, In, In-map, AllDistinct, same, same_iff, same_refl, Bool-cases, Option-cases,
}
use ic.Exec.Plan.{Step}
use ic.Exec.StepMap.{has_node, by_node, put_step, by_id}

abbrev pub nodes : List Step → List String
nodes = map (λ (s : Step). s.node_id)

abbrev pub ids : List Step → List String
ids = map (λ (s : Step). s.id)

pub has_node-In : (n : String) (steps : List Step) → (has_node n steps ≡ true) ↔ In n (nodes steps)
has_node-In n [] = ground arith
has_node-In n (s ∷ steps) = ground (arith, same_iff s.node_id n, has_node-In n steps)

pub put_step-nodes : (t : Step) (steps : List Step) → nodes (put_step t steps) ≡ nodes steps
unfolding put_step
put_step-nodes t [] = refl
put_step-nodes t (s ∷ steps) = ground (arith, same_iff s.node_id t.node_id, put_step-nodes t steps)

pub put_step-In :
    (t u : Step) (steps : List Step)
    → AllDistinct (nodes steps)
    → In u (put_step t steps)
    → (u ≡ t) ⊎ (In u steps × (u.node_id ≢ t.node_id))
unfolding put_step
put_step-In t u [] d m = absurd m
put_step-In t u (s ∷ steps) (fresh, d) m = elim (Bool-cases (has_node t.node_id steps)) [
  | inl later ↦
      let there = (has_node-In t.node_id steps).0 later in
      elim (rw (later, put_step) at m) [
        | inl e ↦ inr (
          inl e,
          λ same_node. fresh (
              subst (λ n. In n (nodes steps)) (sym same_node ∙ ap (λ (x : Step). x.node_id) e)
                there),
        )
        | inr m' ↦ elim (put_step-In t u steps d m') [ inl e ↦ inl e | inr (a, b) ↦ inr (inr a, b) ]
      ]
  | inr gone ↦
      let not_there = (has_node-In t.node_id steps).1 in
      elim (Bool-cases (same s.node_id t.node_id)) [
        | inl here ↦ elim (rw (gone, here, put_step) at m) [
          | inl e ↦ inl e
          | inr m' ↦ inr (
            inr m',
            λ same_node. ground (
              arith,
              not_there (
                  subst (λ n. In n (nodes steps)) same_node
                    (In-map (λ (x : Step). x.node_id) u steps m')),
            ),
          )
        ]
        | inr other ↦ elim (rw (gone, other, put_step) at m) [
          | inl e ↦ inr (
            inl e,
            λ same_node.
                ground (arith, same_iff s.node_id t.node_id, ap (λ (x : Step). x.node_id) e),
          )
          | inr m' ↦ elim (put_step-In t u steps d m') [
            | inl e ↦ inl e
            | inr (a, b) ↦ inr (inr a, b)
          ]
        ]
      ]
]

pub In-put_step :
    (t u : Step) (steps : List Step) → In u steps → u.node_id ≢ t.node_id → In u (put_step t steps)
unfolding put_step
In-put_step t u [] m ne = absurd m
In-put_step t u (s ∷ steps) m ne =
    ground (arith, same_iff s.node_id t.node_id, In-put_step t u steps)

pub by_node-some :
    (n : String) (s : Step) (steps : List Step)
    → by_node n steps ≡ some s
    → In s steps × (s.node_id ≡ n)
unfolding by_node
by_node-some n s [] h = ground arith
by_node-some n s (t ∷ steps) h = ground (arith, same_iff t.node_id n, by_node-some n s steps)

pub by_node-none :
    (n : String) (s : Step) (steps : List Step)
    → by_node n steps ≡ none
    → In s steps
    → s.node_id ≢ n
unfolding by_node
by_node-none n s [] h m = absurd m
by_node-none n s (t ∷ steps) h m = ground (arith, same_iff t.node_id n, by_node-none n s steps)

by_node-absent : (n : String) (steps : List Step) → ¬ In n (nodes steps) → by_node n steps ≡ none
unfolding by_node
by_node-absent n [] h = refl
by_node-absent n (s ∷ steps) h =
    let gone = by_node-absent n steps (λ m. h (inr m)) in
    let other : s.node_id ≢ n = λ e. h (inl (sym e)) in ground (arith, gone, same_iff s.node_id n)

pub by_node-In :
    (s : Step) (steps : List Step)
    → AllDistinct (nodes steps)
    → In s steps
    → by_node s.node_id steps ≡ some s
unfolding by_node
by_node-In s [] d m = absurd m
by_node-In s (t ∷ steps) (fresh, d) (inl here) =
    let step : by_node t.node_id (t ∷ steps) ≡ some t =
      rw (by_node-absent t.node_id steps fresh, same_refl t.node_id, by_node) refl in
    subst (λ (x : Step). by_node x.node_id (t ∷ steps) ≡ some x) (sym here) step
by_node-In s (t ∷ steps) (fresh, d) (inr later) = rw (by_node-In s steps d later, by_node) refl

pub by_id-In :
    (s : Step) (steps : List Step)
    → AllDistinct (ids steps)
    → AllDistinct (nodes steps)
    → In s steps
    → by_id s.id steps ≡ some s
unfolding by_id
by_id-In s [] d e m = absurd m
by_id-In s (t ∷ steps) (fresh, d) (fresh', e) m = elim m [
  | inl here ↦
      let alone : has_node t.node_id steps ≡ false = ground (arith, has_node-In t.node_id steps) in
      rw here (rw (same_refl t.id, alone) refl)
  | inr there ↦
      let other : same t.id s.id ≡ false = elim (Bool-cases (same t.id s.id)) [
        | inr differ ↦ differ
        | inl equal ↦ absurd (
            fresh (
              subst (λ n. In n (ids steps)) (sym ((same_iff t.id s.id).0 equal))
                (In-map (λ (x : Step). x.id) s steps there)))
      ] in
      rw other (by_id-In s steps d e there)
]

by_node-has_node :
    (n : String) (steps : List Step) → by_node n steps ≡ none → has_node n steps ≡ false
unfolding by_node
by_node-has_node n [] h = refl
by_node-has_node n (s ∷ steps) h = ground (arith, by_node-has_node n steps)

by_node-has_node-some :
    (n : String) (s : Step) (steps : List Step) → by_node n steps ≡ some s → has_node n steps ≡ true
by_node-has_node-some n s steps h =
    let (m, e) = by_node-some n s steps h in
    (has_node-In n steps).1
      (subst (λ k. In k (nodes steps)) e (In-map (λ (x : Step). x.node_id) s steps m))

-- A change of a step that keeps its id keeps the list of the ids.
pub put_step-ids :
    (t s : Step) (steps : List Step)
    → by_node t.node_id steps ≡ some s
    → t.id ≡ s.id
    → ids (put_step t steps) ≡ ids steps
unfolding put_step by_node
put_step-ids t s [] h e = refl
put_step-ids t s (u ∷ steps) h e = elim (Option-cases (by_node t.node_id steps)) [
  | inl gone ↦ ground (arith, by_node-has_node t.node_id steps gone)
  | inr (u', later) ↦
      ground (arith, put_step-ids t u' steps later, by_node-has_node-some t.node_id u' steps later)
]
