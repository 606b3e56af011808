-- ===== src/Graph/Cycle/Fuel.antt =====
-- internal/graph/op_graph.go: the fuel of `walk` is enough, since every visit that goes on adds a
-- node to `seen`, and there are no more nodes than edges and nodes of the document.
use ic.Prelude.{
  ℕ, zero, suc, ◌≤◌, ◌<◌, ◌≡◌, refl, inl, inr, String, Bool, true, false, not, List, [], ◌∷◌,
  Option, some, arith, length, In, keep, same, same_iff, Bool-cases,
}
use ic.Graph.Document.{Document}
use ic.Graph.Cycle.{member, walk, walk_all, above}
use ic.Graph.Cycle.Walk.{member_iff, member_of_In, Visit}

-- How many of the nodes `us` are not in `seen`.
abbrev pub unseen : List String → List String → ℕ
unseen us seen = length (keep (λ u. not (member u seen)) us)

-- The more is seen, the less is unseen.
pub unseen_anti :
    (us s t : List String) → ((x : String) → In x s → In x t) → unseen us t ≤ unseen us s
unseen_anti [] s t h = omega arith
unseen_anti (u ∷ us) s t h = elim (Bool-cases (member u s)) [
  | inl old ↦ ground (arith, unseen_anti us s t h, member_of_In u t (h u (member_iff u s old)))
  | inr new ↦ ground (arith, unseen_anti us s t h)
]

pub unseen-cons :
    (us s : List String) (x : String)
    → In x us
    → member x s ≡ false
    → unseen us (x ∷ s) < unseen us s
unseen-cons [] s x m h = absurd m
unseen-cons (u ∷ us) s x (inl e) h =
    ground (arith, unseen_anti us s (x ∷ s) (λ y my. inr my), same_iff x u)
unseen-cons (u ∷ us) s x (inr m) h = ground (arith, unseen-cons us s x m h, same_iff x u)

module _ {F : Type 0} (doc : Document F) (to : String) (us : List String)
    (closed : (x y : String) → In y (above doc x) → In y us) where
  -- A visit that comes back, whatever it found, with no less seen.
  abbrev pub Ends : Option (Bool × List String) → List String → Type 0
  Ends r s = (b : Bool) × (t : List String) × (r ≡ some (b, t)) × (unseen us t ≤ unseen us s)

  walk_all-Ends :
      (visit : Visit doc to) (bound : ℕ)
      → ((x : String) (s : List String) → In x us → unseen us s < bound → Ends (visit x s) s)
      → (xs s : List String) → ((x : String) → In x xs → In x us)
      → unseen us s < bound
      → Ends (walk_all visit xs s) s
  unfolding walk_all
  walk_all-Ends visit bound ends [] s sub h = (false, s, refl, omega arith)
  walk_all-Ends visit bound ends (x ∷ xs) s sub h =
      let (b, t, e, le) = ends x s (sub x (inl refl)) h in
      elim (Bool-cases b) [
        | inl hit ↦ (true, t, ground arith, le)
        | inr miss ↦
            let (b', t', e', le') =
              walk_all-Ends visit bound ends xs t (λ y m. sub y (inr m)) (omega arith) in
            (b', t', ground arith, omega arith)
      ]

  pub walk-Ends :
      (fuel : ℕ) (x : String) (s : List String)
      → In x us
      → unseen us s < fuel
      → Ends (walk doc to fuel x s) s
  unfolding walk
  walk-Ends zero x s m h = absurd (omega arith)
  walk-Ends (suc fuel) x s m h = elim (Bool-cases (same x to)) [
    | inl hit ↦ (true, s, (rw (hit, walk)), omega arith)
    | inr miss ↦ elim (Bool-cases (member x s)) [
      | inl old ↦ (false, s, (rw (miss, old, walk)), omega arith)
      | inr new ↦
          let less = unseen-cons us s x m new in
          let (b, t, e, le) =
            walk_all-Ends (walk doc to fuel) fuel (walk-Ends fuel) (above doc x) (x ∷ s) (closed x)
              (omega (arith, less)) in
          (b, t, (rw (miss, new, walk) e), omega (arith, less))
    ]
  ]
