-- ===== src/Exec/Sort/Ends.antt =====
-- internal/exec/compiler.go, `topoSort`: the fuel of its loop is enough.
use ic.Prelude.{
  ℕ, zero, suc, ◌+◌, ◌≤◌, ◌≡◌, refl, ◌≢◌, inl, inr, String, List, [], ◌∷◌, ◌++◌, some, arith,
  length, length-append, Bool-cases, Option-cases, ◌==◌, sort_strings,
}
use ic.Prelude.Dict.{lookup, insert}
use ic.Exec.Plan.{PlanStep}
use ic.Exec.Sort.{
  followers, release, total, kahn, take_step, step_of, start_degrees, start_queue, sort_fuel,
  topo_sort, unended,
}

total-insert :
    (k : String) (n : ℕ) (m : List (String × ℕ))
    → lookup k m ≡ some (suc n)
    → total (insert k n m) + 1 ≡ total m
unfolding total lookup insert
total-insert k n [] h = ground arith
total-insert k n ((j, v) ∷ m) h = ground (arith, total-insert k n m)

-- A release takes off the in-degrees what it puts on the queue, at least.
release-total :
    (ms : List String) (indeg : List (String × ℕ)) (queue : List String)
    → let r = release ms indeg queue in length r.1 + total r.0 ≤ length queue + total indeg
unfolding release
release-total [] indeg queue = omega arith
release-total (m ∷ ms) indeg queue = elim (Option-cases (lookup m indeg)) [
  | inl e ↦ rw (e, release) (release-total ms indeg queue)
  | inr (zero, e) ↦ rw (e, release) (release-total ms indeg queue)
  | inr (suc n, e) ↦ elim (Bool-cases (n == 0)) [
    | inl last ↦
        rw (e, last, release)
          (omega (
            arith,
            release-total ms (insert m n indeg) (queue ++ m ∷ []),
            length-append queue (m ∷ []),
            total-insert m n indeg e,
          ))
    | inr more ↦
        rw (e, more, release)
          (omega (arith, release-total ms (insert m n indeg) queue, total-insert m n indeg e))
  ]
]

module _ {F : Type 0} (steps : List (PlanStep F)) where
  kahn-some :
      (fuel : ℕ) (queue : List String) (indeg : List (String × ℕ)) (out : List (PlanStep F))
      → length queue + total indeg ≤ fuel
      → (r : List (PlanStep F)) × (kahn steps fuel queue indeg out ≡ some r)
  unfolding kahn
  kahn-some zero [] indeg out h = (out, refl)
  kahn-some (suc fuel) [] indeg out h = (out, refl)
  kahn-some zero (id ∷ queue) indeg out h = absurd (omega (arith, h))
  kahn-some (suc fuel) (id ∷ queue) indeg out h =
      let ms = sort_strings (followers id steps) in
      let r = release ms indeg queue in
      kahn-some fuel r.1 r.0 (take_step (step_of id steps) out)
        (omega (arith, h, release-total ms indeg queue))

  -- The sort of the steps of a plan ends, whatever they depend on: with an order or with an error.
  pub topo_sort-unended : topo_sort steps ≢ unended
  unfolding topo_sort
  topo_sort-unended h =
      let (r, e) =
        kahn-some (sort_fuel steps) (start_queue steps) (start_degrees steps) [] (omega arith) in
      elim (Bool-cases (length r == length steps)) [
        | inl even ↦ absurd (ground arith)
        | inr odd ↦ absurd (ground arith)
      ]
