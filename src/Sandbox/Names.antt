-- ===== src/Sandbox/Names.antt =====
-- internal/sandbox/ast.go: a name that is added to the names so far.
use ic.Prelude.{refl, String, List, [], ◌∷◌, In, In-append, Bool-cases, inl, inr}
use ic.Graph.Cycle.{member as is_member}
use ic.Graph.Cycle.Walk.{member_iff}
use ic.Sandbox.Syntax.{add_name}

pub add_name-keeps : (n x : String) (out : List String) → In x out → In x (add_name n out)
unfolding add_name
add_name-keeps n x out m = elim (Bool-cases (is_member n out)) [
  | inl e ↦ rw e m
  | inr e ↦ rw e ((In-append x out (n ∷ [])).1 (inl m))
]

pub add_name-has : (n : String) (out : List String) → In n (add_name n out)
unfolding add_name
add_name-has n out = elim (Bool-cases (is_member n out)) [
  | inl e ↦ rw e (member_iff n out e)
  | inr e ↦ rw e ((In-append n out (n ∷ [])).1 (inr (inl refl)))
]
