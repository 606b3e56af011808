-- ===== src/Exec/Sort/Plain.antt =====
-- internal/exec/compiler.go, `topoSort`, on steps that depend on nothing, as `stepFor` makes them.
use ic.Prelude.{
  ℕ, zero, suc, ◌≤◌, ◌≡◌, refl, sym, ap, ◌∙◌, subst, ◌⊎◌, inl, inr, String, true, false, List, [],
  ◌∷◌, ◌++◌, none, some, arith, length, map, In, In-append, append_nil, append_assoc, map-append,
  AllDistinct, same, same_iff, if◌then◌else◌, Bool-cases, Option-cases, ◌==◌, sort_strings,
  In-sort_strings, length-sort_strings, length-map,
}
use ic.Prelude.Dict.{insert, keys}
use ic.Exec.Plan.{PlanStep}
use ic.Exec.Sort.{
  followers, release, zeros, in_degrees, increase_each, free_ids, kahn, step_of, start_degrees,
  start_queue, sort_fuel, topo_sort, sorted, last_depends, restore,
}

abbrev pub plan_ids : {F : Type 0} → List (PlanStep F) → List String
plan_ids = map (λ s. s.id)

abbrev pub IsPlain : {F : Type 0} → List (PlanStep F) → Type 0
IsPlain steps = (s : PlanStep _) → In s steps → s.depends_on ≡ []

insert-new :
    (k : String) (indeg : List (String × ℕ))
    → ¬ In k (keys indeg)
    → insert k 0 indeg ≡ indeg ++ (k, 0) ∷ []
unfolding insert
insert-new k [] n = refl
insert-new k ((j, v) ∷ indeg) n =
    let other : same j k ≡ false = ground (arith, same_iff j k) in
    rw other (ap (λ l. (j, v) ∷ l) (insert-new k indeg (λ m. n (inr m))))

In-keys_append :
    (k j : String) (indeg : List (String × ℕ))
    → In k (keys (indeg ++ (j, 0) ∷ []))
    → In k (keys indeg) ⊎ (k ≡ j)
In-keys_append k j [] (inl e) = inr e
In-keys_append k j [] (inr m) = absurd m
In-keys_append k j ((i, v) ∷ indeg) (inl e) = inl (inl e)
In-keys_append k j ((i, v) ∷ indeg) (inr m) = elim (In-keys_append k j indeg m) [
  | inl old ↦ inl (inr old)
  | inr e ↦ inr e
]

module _ {F : Type 0} where
  followers-plain :
      (id : String) (steps : List (PlanStep F)) → IsPlain steps → followers id steps ≡ []
  unfolding followers
  followers-plain id [] p = refl
  followers-plain id (s ∷ steps) p =
      rw (p s (inl refl)) (followers-plain id steps (λ t m. p t (inr m)))

  release-plain :
      (id : String) (steps : List (PlanStep F)) (indeg : List (String × ℕ)) (queue : List String)
      → IsPlain steps
      → release (sort_strings (followers id steps)) indeg queue ≡ (indeg, queue)
  unfolding release sort_strings
  release-plain id steps indeg queue p = rw (followers-plain id steps p) refl

  in_degrees-plain :
      (all steps : List (PlanStep F)) (indeg : List (String × ℕ))
      → IsPlain steps
      → in_degrees all steps indeg ≡ indeg
  unfolding in_degrees increase_each
  in_degrees-plain all [] indeg p = refl
  in_degrees-plain all (s ∷ steps) indeg p =
      rw (p s (inl refl)) (in_degrees-plain all steps indeg (λ t m. p t (inr m)))

  step_of-some :
      (id : String) (s : PlanStep F) (steps : List (PlanStep F))
      → step_of id steps ≡ some s
      → In s steps × (s.id ≡ id)
  unfolding step_of
  step_of-some id s [] h = ground arith
  step_of-some id s (t ∷ steps) h = elim (Option-cases (step_of id steps)) [
    | inr (u, e) ↦
        let same_step : u ≡ s = ground arith in
        let (m, n) = step_of-some id s steps (e ∙ ap some same_step) in (inr m, n)
    | inl e ↦ elim (Bool-cases (same t.id id)) [
      | inl here ↦
          let same_step : t ≡ s = ground arith in
          (
            inl (sym same_step),
            ap (λ (x : PlanStep F). x.id) (sym same_step) ∙ (same_iff t.id id).0 here,
          )
      | inr other ↦ ground arith
    ]
  ]

  step_of-none :
      (id : String) (steps : List (PlanStep F)) → step_of id steps ≡ none → ¬ In id (plan_ids steps)
  unfolding step_of
  step_of-none id [] h m = m
  step_of-none id (t ∷ steps) h m = elim (Option-cases (step_of id steps)) [
    | inr (u, e) ↦ ground arith
    | inl e ↦ ground (arith, step_of-none id steps e, same_iff t.id id)
  ]

  step_of-In :
      (id : String) (steps : List (PlanStep F))
      → In id (plan_ids steps)
      → (s : PlanStep F) × (step_of id steps ≡ some s) × In s steps × (s.id ≡ id)
  step_of-In id steps m = elim (Option-cases (step_of id steps)) [
    | inr (s, e) ↦ let (ms, here) = step_of-some id s steps e in (s, e, ms, here)
    | inl e ↦ absurd (step_of-none id steps e m)
  ]

  last_depends-plain :
      (s : PlanStep F) (steps : List (PlanStep F))
      → IsPlain steps
      → s.depends_on ≡ []
      → last_depends s steps ≡ s
  unfolding last_depends
  last_depends-plain s [] p e = refl
  last_depends-plain s (t ∷ steps) p e =
      let kept : (if same t.node_id s.node_id then record s { depends_on = t.depends_on } else s)
          ≡ s =
        elim (Bool-cases (same t.node_id s.node_id)) [
          | inl here ↦ rw (here, p t (inl refl), sym e) refl
          | inr other ↦ rw other refl
        ] in
      rw kept (last_depends-plain s steps (λ u m. p u (inr m)) e)

  restore-plain :
      (steps out : List (PlanStep F)) → IsPlain steps → IsPlain out → restore steps out ≡ out
  unfolding restore
  restore-plain steps [] p q = refl
  restore-plain steps (s ∷ out) p q =
      rw
        (
          last_depends-plain s steps p (q s (inl refl)),
          restore-plain steps out p (λ t m. q t (inr m)),
        )
        refl

  -- With nothing to release, the queue is taken as it stands.
  kahn-plain :
      (steps : List (PlanStep F))
      → IsPlain steps
      → (fuel : ℕ) (queue : List String) (indeg : List (String × ℕ)) (out : List (PlanStep F))
      → length queue ≤ fuel
      → ((id : String) → In id queue → In id (plan_ids steps))
      → (r : List (PlanStep F)) × (kahn steps fuel queue indeg out ≡ some r)
        × (plan_ids r ≡ plan_ids out ++ queue)
        × ((s : PlanStep F) → In s r → In s out ⊎ In s steps)
  unfolding kahn
  kahn-plain steps p zero [] indeg out h sub =
      (out, refl, sym (append_nil (plan_ids out)), λ s m. inl m)
  kahn-plain steps p (suc fuel) [] indeg out h sub =
      (out, refl, sym (append_nil (plan_ids out)), λ s m. inl m)
  kahn-plain steps p zero (id ∷ queue) indeg out h sub = absurd (omega (arith, h))
  kahn-plain steps p (suc fuel) (id ∷ queue) indeg out h sub =
      let (s, found, ms, here) = step_of-In id steps (sub id (inl refl)) in
      let (r, e, names, from) =
        kahn-plain steps p fuel queue indeg (out ++ s ∷ []) (omega (arith, h))
          (λ k m. sub k (inr m)) in
      (
        r,
        rw (release-plain id steps indeg queue p, found, kahn) e,
        names
            ∙ ap (λ l. l ++ queue) (map-append (λ (x : PlanStep F). x.id) out (s ∷ []))
            ∙ append_assoc (plan_ids out) (s.id ∷ []) queue
            ∙ ap (λ k. plan_ids out ++ k ∷ queue) here,
        λ t m. elim (from t m) [
          | inr old ↦ inr old
          | inl grown ↦ elim ((In-append t out (s ∷ [])).0 grown) [
            | inl m' ↦ inl m'
            | inr (inl same_step) ↦ inr (subst (λ x. In x steps) (sym same_step) ms)
            | inr (inr no_more) ↦ absurd no_more
          ]
        ],
      )

  abbrev starts : List (PlanStep F) → List (String × ℕ)
  starts = map (λ s. (s.id, 0))

  zeros-starts :
      (steps : List (PlanStep F)) (indeg : List (String × ℕ))
      → AllDistinct (plan_ids steps)
      → ((k : String) → In k (keys indeg) → ¬ In k (plan_ids steps))
      → zeros steps indeg ≡ indeg ++ starts steps
  unfolding zeros
  zeros-starts [] indeg d n = sym (append_nil indeg)
  zeros-starts (s ∷ steps) indeg (fresh, d) n =
      let new = insert-new s.id indeg (λ m. n s.id m (inl refl)) in
      rw new (
        zeros-starts steps (indeg ++ (s.id, 0) ∷ []) d (λ k m m'.
          elim (In-keys_append k s.id indeg m) [
            | inl old ↦ n k old (inr m')
            | inr e ↦ fresh (subst (λ x. In x (plan_ids steps)) e m')
          ])
        ∙ append_assoc indeg ((s.id, 0) ∷ []) (starts steps))

  free_ids-starts : (steps : List (PlanStep F)) → free_ids (starts steps) ≡ plan_ids steps
  unfolding free_ids
  free_ids-starts [] = refl
  free_ids-starts (s ∷ steps) = ap (λ l. s.id ∷ l) (free_ids-starts steps)

  -- Steps that depend on nothing, with their ids apart, come out in the order of their ids, all of them,
  -- in whatever order they are found.
  pub topo_sort-sort_strings :
      (steps : List (PlanStep F))
      → IsPlain steps
      → AllDistinct (plan_ids steps)
      → (r : List (PlanStep F)) × (topo_sort steps ≡ sorted r)
        × (plan_ids r ≡ sort_strings (plan_ids steps))
        × ((s : PlanStep F) → In s r → In s steps)
  unfolding topo_sort
  topo_sort-sort_strings steps p d =
      let degrees : start_degrees steps ≡ starts steps =
        in_degrees-plain steps steps (zeros steps []) p
        ∙ zeros-starts steps [] d (λ k m. absurd m) in
      let queue : start_queue steps ≡ sort_strings (plan_ids steps) =
        ap (λ m. sort_strings (free_ids m)) degrees ∙ ap sort_strings (free_ids-starts steps) in
      let (r, e, names, from) =
        kahn-plain steps p (sort_fuel steps) (start_queue steps) (start_degrees steps) []
          (omega arith) (λ k m. (In-sort_strings k (plan_ids steps)).0 (subst (In k) queue m)) in
      let only : (s : PlanStep F) → In s r → In s steps =
        λ s m. elim (from s m) [ inl nowhere ↦ absurd nowhere | inr m' ↦ m' ] in
      let names' = names ∙ queue in
      let even : (length r == length steps) ≡ true = ground (
        arith,
        sym (length-map (λ (x : PlanStep F). x.id) r)
            ∙ ap length names'
            ∙ length-sort_strings (plan_ids steps)
            ∙ length-map (λ (x : PlanStep F). x.id) steps,
      ) in
      (
        r,
        rw (e, even, restore-plain steps r p (λ s m. p s (only s m)), topo_sort) refl,
        names',
        only,
      )
