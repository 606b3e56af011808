-- ===== src/Graph/Cycle/Walk.antt =====
-- internal/graph/op_graph.go: what `walk` finds. It is proved for any way up, so that the proof does
-- not look into documents.
use ic.Prelude.{
  ℕ, zero, suc, ◌≡◌, refl, ◌≢◌, ◌⊎◌, inl, inr, String, Bool, true, false, List, [], ◌∷◌, Option,
  none, some, arith, In, same_iff, same-cases, Bool-cases,
}
use ic.Graph.Document.{Document}
use ic.Graph.Cycle.{member, walk, walk_all, above}

pub member_iff : (x : String) (xs : List String) → member x xs ≡ true → In x xs
member_iff x [] h = cc
member_iff x (y ∷ ys) h = ground (arith, same_iff y x, member_iff x ys)

pub member_of_In : (x : String) (xs : List String) → In x xs → member x xs ≡ true
member_of_In x [] h = absurd h
member_of_In x (y ∷ ys) h = ground (arith, same_iff y x, member_of_In x ys)

-- The three ways a visit can end.
pub visit_cases :
    (r : Option (Bool × List String))
    → (r ≡ none)
      ⊎ ((t : List String) × (r ≡ some (true, t)))
      ⊎ ((t : List String) × (r ≡ some (false, t)))
visit_cases none = inl refl
visit_cases (some (true, t)) = inr (inl (t, refl))
visit_cases (some (false, t)) = inr (inr (t, refl))

module _ {F : Type 0} (doc : Document F) (to : String) where
  -- The nodes from which the steps up lead to `to`.
  pub data Ascends : String → Type 0 where
    here : Ascends to
    up : {x y : String} → In y (above doc x) → Ascends y → Ascends x

  -- A search that ends without a hit has only added nodes whose ways up it has seen to the end.
  pub record Explored (before after : List String) : Type 0 where
    pub grows : (x : String) → In x before → In x after
    pub closed :
        (x : String)
        → In x after
        → In x before ⊎ (x ≢ to) × ((y : String) → In y (above doc x) → In y after)

  Explored-refl : (s : List String) → Explored s s
  Explored-refl s = record { grows = λ x m. m; closed = λ x m. inl m }

  Explored-trans : (s t u : List String) → Explored s t → Explored t u → Explored s u
  Explored-trans s t u p q = record {
    grows = λ x m. q.grows x (p.grows x m);
    closed = λ x m. elim (q.closed x m) [
      | inl old ↦ elim (p.closed x old) [
        | inl older ↦ inl older
        | inr r ↦ inr (r.0, λ y my. q.grows y (r.1 y my))
      ]
      | inr r ↦ inr r
    ];
  }

  -- Entering a node, and then all of its ways up.
  Explored-enter :
      (cur : String) (s t : List String)
      → cur ≢ to
      → Explored (cur ∷ s) t
      → ((y : String) → In y (above doc cur) → In y t)
      → Explored s t
  Explored-enter cur s t ne p all = record {
    grows = λ x m. p.grows x (inr m);
    closed = λ x m. elim (p.closed x m) [
      | inl (inl e) ↦ inr (rw e (ne, all))
      | inl (inr old) ↦ inl old
      | inr r ↦ inr r
    ];
  }

  abbrev pub Visit : Type 0
  Visit = String → List String → Option (Bool × List String)

  abbrev pub IsSearch : Visit → Type 0
  IsSearch visit =
      (x : String) (s t : List String) → visit x s ≡ some (false, t) → Explored s t × In x t

  walk_all-cons :
      (visit : Visit) (x : String) (xs s t : List String)
      → walk_all visit (x ∷ xs) s ≡ some (false, t)
      → (m : List String) × (visit x s ≡ some (false, m)) × (walk_all visit xs m ≡ some (false, t))
  unfolding walk_all
  walk_all-cons visit x xs s t h = elim (visit_cases (visit x s)) [
    | inl e ↦ absurd (ground arith)
    | inr (inl (m, e)) ↦ absurd (ground arith)
    | inr (inr (m, e)) ↦ (m, e, rw (e, walk_all) at h)
  ]

  walk_all-Explored :
      (visit : Visit)
      → IsSearch visit
      → (xs s t : List String) → walk_all visit xs s ≡ some (false, t)
      → Explored s t × ((x : String) → In x xs → In x t)
  unfolding walk_all
  walk_all-Explored visit search [] s t h =
      let e : s ≡ t = cc in (rw e (Explored-refl t), λ x m. absurd m)
  walk_all-Explored visit search (x ∷ xs) s t h =
      let (m, first, later) = walk_all-cons visit x xs s t h in
      let (p, hit) = search x s m first in
      let (q, hits) = walk_all-Explored visit search xs m t later in
      (
        Explored-trans s m t p q,
        λ y my. elim my [ inl e ↦ rw e (q.grows x hit) | inr r ↦ hits y r ],
      )

  pub walk-Explored : (fuel : ℕ) → IsSearch (walk doc to fuel)
  unfolding walk
  walk-Explored zero x s t h = cc
  walk-Explored (suc fuel) x s t h = elim (same-cases x to) [
    | inl (b, e) ↦ ground arith
    | inr (b, ne) ↦ elim (Bool-cases (member x s)) [
      | inl old ↦
          let e : s ≡ t = ground arith in (rw e (Explored-refl t), rw (← e) (member_iff x s old))
      | inr new ↦
          let (p, all) =
            walk_all-Explored (walk doc to fuel) (walk-Explored fuel) (above doc x) (x ∷ s) t
              (ground arith) in
          (Explored-enter x s t ne p all, p.grows x (inl refl))
    ]
  ]

  abbrev pub Hits : Visit → Type 0
  Hits visit = (x : String) (s t : List String) → visit x s ≡ some (true, t) → Ascends x

  -- A hit in a list of visits is a hit in one of them.
  walk_all-Hits :
      (visit : Visit)
      → Hits visit
      → (xs s t : List String) → walk_all visit xs s ≡ some (true, t)
      → (x : String) × In x xs × Ascends x
  walk_all-Hits visit hits [] s t h = absurd (unfold walk_all in cc h)
  walk_all-Hits visit hits (x ∷ xs) s t h = elim (visit_cases (visit x s)) [
    | inl e ↦ absurd (unfold walk_all in ground arith)
    | inr (inl (m, e)) ↦ (x, inl refl, hits x s m e)
    | inr (inr (m, e)) ↦
        let (y, my, p) =
          walk_all-Hits visit hits xs m t (unfold walk_all in (rw (e, walk_all) at h)) in
        (y, inr my, p)
  ]

  pub walk-Hits : (fuel : ℕ) → Hits (walk doc to fuel)
  unfolding walk
  walk-Hits zero x s t h = cc
  walk-Hits (suc fuel) x s t h = elim (same-cases x to) [
    | inl (b, e) ↦ rw e here
    | inr (b, ne) ↦ elim (Bool-cases (member x s)) [
      | inl old ↦ absurd (ground arith)
      | inr new ↦
          let (y, my, p) =
            walk_all-Hits (walk doc to fuel) (walk-Hits fuel) (above doc x) (x ∷ s) t
              (ground arith) in
          up my p
    ]
  ]

  -- From a closed set without `to` no steps lead to `to`.
  pub not-Ascends_of_Explored :
      (t : List String) → Explored [] t → (x : String) → In x t → Ascends x → ⊥
  not-Ascends_of_Explored t p x m here = elim (p.closed x m) [ inl old ↦ old | inr r ↦ r.0 refl ]
  not-Ascends_of_Explored t p x m (up {y = y} my a) = elim (p.closed x m) [
    | inl old ↦ old
    | inr r ↦ not-Ascends_of_Explored t p y (r.1 y my) a
  ]
