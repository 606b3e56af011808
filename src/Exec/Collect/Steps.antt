-- ===== src/Exec/Collect/Steps.antt =====
-- internal/exec/compiler.go, `collect`: the steps that the visits of nodes gather.
use ic.Prelude.{
  ◌≤◌, ◌<◌, ◌≡◌, refl, sym, ap, subst, ◌⊎◌, inl, inr, String, List, [], ◌∷◌, ◌++◌, arith, map,
  length, length-append, leb, concat, In, In-append, AllDistinct, Bool-cases,
}
use ic.Platform.Float.{Float64}
use ic.Graph.Document.{Node}
use ic.Exec.Plan.{PlanStep}
use ic.Exec.Collect.{
  CredentialFor, Collected, went, broke, out_of_fuel, Found, CompileError, collect_all, append_step,
  step_for, stepped, unfit, max_dag_nodes, Stepped,
}

-- A visit comes back: it fails, or what it leaves is as told.
abbrev pub Leaves : {F : Type 0} → (Found F → Type 0) → Collected F → Type 0
Leaves P (went st) = P st
Leaves P (broke e) = Unit
Leaves P out_of_fuel = ⊥

-- What goes on after a visit, as `visit_node` and `collect_all` do.
abbrev pub and_then : {F : Type 0} → Collected F → (Found F → Collected F) → Collected F
and_then r next = elim r [ went st ↦ next st | broke e ↦ broke e | out_of_fuel ↦ out_of_fuel ]

pub and_then-Leaves :
    {F : Type 0} (P Q : Found F → Type 0) (r : Collected F) (next : Found F → Collected F)
    → Leaves P r
    → ((st : Found F) → P st → Leaves Q (next st))
    → Leaves Q (and_then r next)
and_then-Leaves P Q (went st) next p h = h st p
and_then-Leaves P Q (broke e) next p h = tt
and_then-Leaves P Q out_of_fuel next p h = p

pub Leaves-mono :
    {F : Type 0} (P Q : Found F → Type 0) (r : Collected F)
    → ((st : Found F) → P st → Q st)
    → Leaves P r
    → Leaves Q r
Leaves-mono P Q (went st) h p = h st p
Leaves-mono P Q (broke e) h p = tt
Leaves-mono P Q out_of_fuel h p = p

pub collect_all-Leaves :
    {F : Type 0} (P : Found F → Type 0) (visit : String → Found F → Collected F)
    → ((x : String) (st : Found F) → P st → Leaves P (visit x st))
    → (xs : List String) (st : Found F) → P st
    → Leaves P (collect_all visit xs st)
unfolding collect_all
collect_all-Leaves P visit leaves [] st p = p
collect_all-Leaves P visit leaves (x ∷ xs) st p =
    and_then-Leaves P P (visit x st) (collect_all visit xs) (leaves x st p)
      (collect_all-Leaves P visit leaves xs)

abbrev pub step_nodes : {F : Type 0} → List (PlanStep F) → List String
step_nodes = map (λ s. s.node_id)

-- The steps so far: few, of visited nodes, each of its own, and named after their nodes.
pub record IsGood {F : Type 0} (st : Found F) : Type 0 where
  pub few : length st.steps ≤ max_dag_nodes
  pub visited : (x : String) → In x (step_nodes st.steps) → In x st.visited
  pub apart : AllDistinct (step_nodes st.steps)
  pub named :
      (s : PlanStep F) → In s st.steps → (s.id ≡ concat "st_" s.node_id) × (s.depends_on ≡ [])

-- The nodes whose visits are not at their end are visited and have no step yet.
abbrev pub IsOpen : {F : Type 0} → List String → Found F → Type 0
IsOpen held st = (x : String) → In x held → In x st.visited × ¬ In x (step_nodes st.steps)

Stepped-cases :
    {F : Type 0} (r : Stepped F)
    → ((s : PlanStep F) × (r ≡ stepped s)) ⊎ ((e : CompileError) × (r ≡ unfit e))
Stepped-cases (stepped s) = inl (s, refl)
Stepped-cases (unfit e) = inr (e, refl)

AllDistinct-snoc :
    {A : Type 0} (xs : List A) (x : A) → AllDistinct xs → ¬ In x xs → AllDistinct (xs ++ x ∷ [])
AllDistinct-snoc [] x d n = ((λ m. m), tt)
AllDistinct-snoc (y ∷ xs) x (fresh, d) n = (
  (λ m. elim ((In-append y xs (x ∷ [])).0 m) [
    | inl old ↦ fresh old
    | inr (inl e) ↦ n (inl (sym e))
    | inr (inr no_more) ↦ no_more
  ]),
  AllDistinct-snoc xs x d (λ m. n (inr m)),
)

nodes-snoc :
    {F : Type 0} (steps : List (PlanStep F)) (s : PlanStep F)
    → step_nodes (steps ++ s ∷ []) ≡ step_nodes steps ++ s.node_id ∷ []
nodes-snoc [] s = refl
nodes-snoc (t ∷ steps) s = ap (λ l. t.node_id ∷ l) (nodes-snoc steps s)

module _ {F : Type 0} (st : Found F) (s : PlanStep F) (good : IsGood st)
    (fresh : ¬ In s.node_id (step_nodes st.steps)) where
  abbrev grown : Found F
  grown = record st { steps = st.steps ++ s ∷ [] }

  In-grown :
      (x : String) → In x (step_nodes grown.steps) → In x (step_nodes st.steps) ⊎ (x ≡ s.node_id)
  In-grown x m =
      elim ((In-append x (step_nodes st.steps) (s.node_id ∷ [])).0
        (subst (In x) (nodes-snoc st.steps s) m)) [
          | inl old ↦ inl old
          | inr (inl e) ↦ inr e
          | inr (inr no_more) ↦ absurd no_more
        ]

  grown-IsGood :
      (length st.steps < max_dag_nodes)
      → In s.node_id st.visited
      → (s.id ≡ concat "st_" s.node_id) × (s.depends_on ≡ [])
      → IsGood grown
  grown-IsGood room seen named = record {
    few = omega (arith, length-append st.steps (s ∷ []));
    visited = λ x m. elim (In-grown x m) [ inl old ↦ good.visited x old | inr e ↦ rw e seen ];
    apart =
        subst AllDistinct (sym (nodes-snoc st.steps s))
          (AllDistinct-snoc (step_nodes st.steps) s.node_id good.apart fresh);
    named = λ t m. elim ((In-append t st.steps (s ∷ [])).0 m) [
      | inl old ↦ good.named t old
      | inr (inl e) ↦ rw e named
      | inr (inr no_more) ↦ absurd no_more
    ];
  }

  grown-IsOpen : (held : List String) → IsOpen held st → ¬ In s.node_id held → IsOpen held grown
  grown-IsOpen held opened new x m = (
    (opened x m).0,
    (λ m'. elim (In-grown x m') [
      | inl old ↦ (opened x m).1 old
      | inr e ↦ new (subst (λ k. In k held) e m)
    ]),
  )

module _ {F : Type 0} ⦃fl : Float64 F⦄ (credential_for : CredentialFor) where
  step_for-named :
      (n : Node F) (s : PlanStep F)
      → step_for credential_for n ≡ stepped s
      → (s.node_id ≡ n.id) × (s.id ≡ concat "st_" n.id) × (s.depends_on ≡ [])
  unfolding step_for
  step_for-named n s h = ground arith

  pub append_step-Leaves :
      (n : Node F) (held : List String) (st : Found F)
      → IsGood st
      → IsOpen (n.id ∷ held) st
      → ¬ In n.id held
      → Leaves
          (λ t. IsGood t × IsOpen held t × (t.visited ≡ st.visited))
          (append_step credential_for n st)
  unfolding append_step
  append_step-Leaves n held st good opened new =
      elim (Bool-cases (leb max_dag_nodes (length st.steps))) [
        | inl full ↦ rw (full, append_step) tt
        | inr room ↦ elim (Stepped-cases (step_for credential_for n)) [
          | inr (x, e) ↦ rw (room, e, append_step) tt
          | inl (s, e) ↦
              let (here, named, free) = step_for-named n s e in
              let (seen, fresh) = opened n.id (inl refl) in
              let fresh' : ¬ In s.node_id (step_nodes st.steps) = rw here fresh in
              rw (room, e, append_step)
                (
                  grown-IsGood st s good fresh' (ground (arith, room)) (rw here seen)
                      (rw here named, free),
                  grown-IsOpen st s good fresh' held (λ x m. opened x (inr m)) (rw here new),
                  refl,
                )
        ]
      ]
