-- ===== src/Prelude/Dict.antt =====
-- A Go map with text keys, as an association list. Go iterates a map in an unspecified order; a
-- loop over a map is modelled in the list's order, or sorted where the program sorts the keys.
use ic.Prelude.{
  ◌≡◌, ◌≢◌, refl, sym, ap, same-cases, inl, inr, length, suc, Bool-cases, String, Bool, true, false,
  List, [], ◌∷◌, Option, none, some, arith, same, same_iff, same_refl, if◌then◌else◌, In,
}

module _ {V : Type 0} where
  unfoldable pub lookup : String → List (String × V) → Option V
  lookup k [] = none
  lookup k ((j, v) ∷ m) = if same j k then some v else lookup k m

  -- m[k] = v
  unfoldable pub insert : String → V → List (String × V) → List (String × V)
  insert k v [] = (k, v) ∷ []
  insert k v ((j, w) ∷ m) = if same j k then (k, v) ∷ m else (j, w) ∷ insert k v m

  -- delete(m, k)
  unfoldable pub delete : String → List (String × V) → List (String × V)
  delete k [] = []
  delete k ((j, w) ∷ m) = let rest = delete k m in if same j k then rest else (j, w) ∷ rest

  unfoldable pub has : String → List (String × V) → Bool
  unfolding lookup
  has k m = elim (lookup k m) [ none ↦ false | some v ↦ true ]

  abbrev pub keys : List (String × V) → List String
  keys [] = []
  keys ((k, v) ∷ m) = k ∷ keys m

  abbrev pub values : List (String × V) → List V
  values [] = []
  values ((k, v) ∷ m) = v ∷ values m

  pub lookup-insert :
      (k j : String) (v : V) (m : List (String × V))
      → lookup j (insert k v m) ≡ (if same k j then some v else lookup j m)
  unfolding lookup insert
  lookup-insert k j v [] = refl
  lookup-insert k j v ((i, w) ∷ m) =
      ground (arith, same_iff k j, same_iff i k, same_iff i j, lookup-insert k j v m)

  pub lookup-insert_same :
      (k : String) (v : V) (m : List (String × V)) → lookup k (insert k v m) ≡ some v
  lookup-insert_same k v m = ground (arith, lookup-insert k k v m, same_refl k)

  pub lookup-insert_other :
      (k j : String) (v : V) (m : List (String × V)) → j ≢ k → lookup j (insert k v m) ≡ lookup j m
  lookup-insert_other k j v m d = ground (arith, lookup-insert k j v m, same_iff k j)

  pub lookup-delete :
      (k j : String) (m : List (String × V))
      → lookup j (delete k m) ≡ (if same k j then none else lookup j m)
  unfolding lookup delete
  lookup-delete k j [] = ground arith
  lookup-delete k j ((i, w) ∷ m) =
      ground (arith, same_iff k j, same_iff i k, same_iff i j, lookup-delete k j m)

  -- A key that is found is among the keys.
  pub In-keys_of_lookup :
      (k : String) (m : List (String × V)) (v : V) → lookup k m ≡ some v → In k (keys m)
  unfolding lookup
  In-keys_of_lookup k [] v h = ground arith
  In-keys_of_lookup k ((j, w) ∷ m) v h = ground (arith, same_iff j k, In-keys_of_lookup k m v)

  pub In-values_of_lookup :
      (k : String) (m : List (String × V)) (v : V) → lookup k m ≡ some v → In v (values m)
  unfolding lookup
  In-values_of_lookup k [] v h = ground arith
  In-values_of_lookup k ((j, w) ∷ m) v h = elim (Bool-cases (same j k)) [
    | inl e ↦ inl (ground arith)
    | inr e ↦ inr (In-values_of_lookup k m v (ground arith))
  ]

  pub length-values : (m : List (String × V)) → length (values m) ≡ length m
  length-values [] = refl
  length-values ((k, v) ∷ m) = ap suc (length-values m)

  -- for k, v := range m { if !p(v) { delete(m, k) } }
  unfoldable pub keep_if : (V → Bool) → List (String × V) → List (String × V)
  keep_if p [] = []
  keep_if p ((k, v) ∷ m) = let rest = keep_if p m in if p v then (k, v) ∷ rest else rest

  -- A map has each key once.
  abbrev pub Distinct : List (String × V) → Type 0
  Distinct [] = Unit
  Distinct ((k, v) ∷ m) = (lookup k m ≡ none) × Distinct m

  -- One map holds no entry that the other lacks.
  abbrev pub Sub : List (String × V) → List (String × V) → Type 0
  Sub m n = (k : String) (v : V) → lookup k m ≡ some v → lookup k n ≡ some v

  pub Distinct-insert :
      (k : String) (v : V) (m : List (String × V)) → Distinct m → Distinct (insert k v m)
  unfolding insert lookup
  Distinct-insert k v [] d = (refl, tt)
  Distinct-insert k v ((j, w) ∷ m) d =
      ground (arith, same_iff j k, same_iff k j, Distinct-insert k v m, lookup-insert k j v m)

  pub Distinct-delete : (k : String) (m : List (String × V)) → Distinct m → Distinct (delete k m)
  unfolding delete lookup
  Distinct-delete k [] d = tt
  Distinct-delete k ((j, w) ∷ m) d =
      ground (arith, same_iff j k, same_iff k j, Distinct-delete k m, lookup-delete k j m)

  pub Sub-delete : (k : String) (m : List (String × V)) → Sub (delete k m) m
  Sub-delete k m j v h = ground (arith, lookup-delete k j m)

  pub Sub-keep_if : (p : V → Bool) (m : List (String × V)) → Distinct m → Sub (keep_if p m) m
  unfolding keep_if lookup
  Sub-keep_if p [] d j v h = h
  Sub-keep_if p ((k, w) ∷ m) d j v h = ground (arith, same_iff k j, Sub-keep_if p m d.1 j v)

  none-keep_if :
      (p : V → Bool) (k : String) (m : List (String × V))
      → lookup k m ≡ none
      → lookup k (keep_if p m) ≡ none
  unfolding keep_if lookup
  none-keep_if p k [] h = refl
  none-keep_if p k ((j, w) ∷ m) h = ground (arith, none-keep_if p k m)

  pub Distinct-keep_if :
      (p : V → Bool) (m : List (String × V)) → Distinct m → Distinct (keep_if p m)
  unfolding keep_if
  Distinct-keep_if p [] d = tt
  Distinct-keep_if p ((k, w) ∷ m) d =
      ground (arith, Distinct-keep_if p m d.1, none-keep_if p k m d.0)

  pub insert-insert_self :
      (k : String) (v w : V) (m : List (String × V)) → insert k v (insert k w m) ≡ insert k v m
  unfolding insert
  insert-insert_self k v w [] = ground (arith, same_iff k k)
  insert-insert_self k v w ((j, x) ∷ m) =
      ground (arith, same_iff j k, same_iff k k, insert-insert_self k v w m)

  pub insert_self :
      (k : String) (v : V) (m : List (String × V)) → lookup k m ≡ some v → insert k v m ≡ m
  unfolding insert lookup
  insert_self k v [] h = cc
  insert_self k v ((j, x) ∷ m) h = ground (arith, same_iff j k, insert_self k v m)

  pub delete-insert_self :
      (k : String) (v : V) (m : List (String × V)) → lookup k m ≡ none → delete k (insert k v m) ≡ m
  unfolding insert delete lookup
  delete-insert_self k v [] h = ground (arith, same_iff k k)
  delete-insert_self k v ((j, x) ∷ m) h = elim (same-cases j k) [
    | inl (hit, _) ↦ absurd (ground arith)
    | inr (miss, _) ↦ ground (arith, delete-insert_self k v m)
  ]

  pub lookup_of_In-keys :
      (k : String) (m : List (String × V)) → In k (keys m) → (v : V) × (lookup k m ≡ some v)
  unfolding lookup
  lookup_of_In-keys k [] h = absurd h
  lookup_of_In-keys k ((j, w) ∷ m) h = elim (same-cases j k) [
    | inl (hit, e) ↦ (w, ground arith)
    | inr (miss, ne) ↦ elim h [
      | inl e ↦ absurd (ne (sym e))
      | inr r ↦ let (v, found) = lookup_of_In-keys k m r in (v, ground arith)
    ]
  ]
