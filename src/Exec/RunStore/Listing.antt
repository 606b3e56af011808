-- ===== src/Exec/RunStore/Listing.antt =====
-- internal/exec/memstore.go, `ListRuns`: what a page has.
use ic.Prelude.{
  ℕ, zero, suc, ◌≤◌, ◌≡◌, refl, ap, sym, subst, ◌∙◌, ◌⊎◌, inl, inr, String, true, false, List, [],
  ◌∷◌, some, arith, length, In, In-append, Bool-cases, Option-cases,
}
use mathlib.Core.Bool.{true≢false}
use ic.Prelude.Int.{ℤ}
use ic.Prelude.Dict.{lookup}
use ic.Exec.Plan.{Run}
use ic.Exec.RunStore.{MemoryStore, is_listed, pick_runs, list_runs, page_limit, newest_first}

newest_first-In : (id : String) (ids : List String) → In id ids → In id (newest_first ids)
unfolding newest_first
newest_first-In id [] m = m
newest_first-In id (x ∷ ids) (inl e) = (In-append id (newest_first ids) (x ∷ [])).1 (inr (inl e))
newest_first-In id (x ∷ ids) (inr m) =
    (In-append id (newest_first ids) (x ∷ [])).1 (inl (newest_first-In id ids m))

page_limit-le : (limit : ℤ) → page_limit limit ≤ 200
unfolding page_limit
page_limit-le limit = ground arith

module _ {F : Type 0} (ws_id canvas_id : String) (s : MemoryStore F) where
  -- A page: short, of runs that are asked for, and with each of those unless it is full.
  abbrev pub IsPage : ℕ → List String → List (Run F) → Type 0
  IsPage limit ids page =
      (length page ≤ limit)
      × ((r : Run F) → In r page → is_listed ws_id canvas_id r ≡ true)
      × ((id : String) (r : Run F)
          → In id ids
          → lookup id s.runs ≡ some r
          → is_listed ws_id canvas_id r ≡ true
          → In r page ⊎ (length page ≡ limit))

  same_run :
      (r q : Run F) (id : String) → lookup id s.runs ≡ some r → lookup id s.runs ≡ some q → q ≡ r
  same_run r q id e f = cc

  unlisted :
      (r q : Run F) (id : String)
      → lookup id s.runs ≡ some r
      → is_listed ws_id canvas_id r ≡ false
      → lookup id s.runs ≡ some q
      → is_listed ws_id canvas_id q ≡ true
      → ⊥
  unlisted r q id e f g h =
      true≢false (sym h ∙ ap (is_listed ws_id canvas_id) (same_run r q id e g) ∙ f)

  pick_runs-IsPage :
      (limit : ℕ) (ids : List String) → IsPage limit ids (pick_runs ws_id canvas_id s limit ids)
  unfolding pick_runs
  pick_runs-IsPage limit [] = (omega arith, (λ r m. absurd m), λ id r m. absurd m)
  pick_runs-IsPage zero (id ∷ ids) = (omega arith, (λ r m. absurd m), λ id r m e l. inr refl)
  pick_runs-IsPage (suc limit) (id ∷ ids) =
      let (short, only, all) = pick_runs-IsPage (suc limit) ids in
      let skipped : ((r : Run F)
            → lookup id s.runs ≡ some r
            → is_listed ws_id canvas_id r ≡ true
            → ⊥)
          → IsPage (suc limit) (id ∷ ids) (pick_runs ws_id canvas_id s (suc limit) ids) =
        λ no_run. (
          short,
          only,
          λ k r m e l. elim m [
            | inl here ↦ absurd (no_run r (subst (λ j. lookup j s.runs ≡ some r) here e) l)
            | inr later ↦ all k r later e l
          ],
        ) in
      elim (Option-cases (lookup id s.runs)) [
        | inl gone ↦ rw (gone, pick_runs) (skipped (λ r e l. ground (arith, gone, e)))
        | inr (r, found) ↦ elim (Bool-cases (is_listed ws_id canvas_id r)) [
          | inr other ↦
              rw (found, other, pick_runs) (skipped (λ q e l. unlisted r q id found other e l))
          | inl wanted ↦
              let (short', only', all') = pick_runs-IsPage limit ids in
              rw (found, wanted, pick_runs)
                (
                  omega (arith, short'),
                  (λ q m. elim m [ inl e ↦ rw e wanted | inr m' ↦ only' q m' ]),
                  λ k q m e l. elim m [
                    | inl here ↦
                        inl (
                          inl
                            (same_run r q id found (subst (λ j. lookup j s.runs ≡ some q) here e)))
                    | inr later ↦ elim (all' k q later e l) [
                      | inl m' ↦ inl (inr m')
                      | inr full ↦ inr (ap suc full)
                    ]
                  ],
                )
        ]
      ]

  -- A page of the runs has at most 200 runs, and at most as many as its limit; they are of the workspace and
  -- the canvas that are asked for, where these are not empty; and each such run that is kept is on the
  -- page, unless the page is full.
  pub list_runs-IsPage :
      (limit : ℤ)
      → (page_limit limit ≤ 200)
        × IsPage (page_limit limit) s.order (list_runs ws_id canvas_id limit s)
  unfolding list_runs
  list_runs-IsPage limit =
      let (short, only, all) = pick_runs-IsPage (page_limit limit) (newest_first s.order) in
      (page_limit-le limit, (short, only, λ id r m. all id r (newest_first-In id s.order m)))
