-- ===== src/Graph/Cycle.antt =====
-- internal/graph/op_graph.go, the algorithms on the graph: port lookup, the search for a cycle and
-- the check of a node's group. The recursive closure `walk` takes fuel; `none` means it ran out.
pub mod Walk
pub mod Fuel
pub mod Correct
use ic.Prelude.{
  ℕ, zero, suc, ◌+◌, ◌≡◌, refl, String, Bool, true, false, ◌&&◌, not, List, [], ◌∷◌, ◌++◌, Option,
  none, some, map, length, any, if◌then◌else◌, same,
}
use ic.Platform.Errors.{Result, ok, err, new_error, Code, DomainError, refuse, or_fail, ◌>>=◌, ◌>>◌}
use ic.Graph.Document.{
  Document, Node, Edge, Endpoint, Port, find_node, upstream_of, node_type_group,
}
use ic.Graph.Limits.{max_group_depth}
use ic.Graph.Schema.{invalid_spec}

unfoldable pub find_port : List Port → String → Option Port
find_port [] id = none
find_port (p ∷ ps) id = if same p.id id then some p else find_port ps id

abbrev pub member : String → List String → Bool
member x = any (λ y. same y x)

abbrev pub sources : List Edge → List String
sources = map (λ (e : Edge). e.from.node_id)

-- The visits of a list in order, until one finds the target. The second part is `seen`.
unfoldable pub walk_all :
    (String → List String → Option (Bool × List String))
    → List String
    → List String
    → Option (Bool × List String)
walk_all visit [] seen = some (false, seen)
walk_all visit (x ∷ xs) seen = elim (visit x seen) [
  | none ↦ none
  | some (true, seen') ↦ some (true, seen')
  | some (false, seen') ↦ walk_all visit xs seen'
]

abbrev pub parent_of : {F : Type 0} → Option (Node F) → List String
parent_of none = []
parent_of (some n) = if same n.parent_id "" then [] else n.parent_id ∷ []

module _ {F : Type 0} (doc : Document F) where
  -- Where the walk goes on from a node: the sources of its in-edges, and then its group.
  unfoldable pub above : String → List String
  above cur = sources (upstream_of doc cur) ++ parent_of (find_node doc cur)

  unfoldable pub walk : String → ℕ → String → List String → Option (Bool × List String)
  walk to zero cur seen = none
  walk to (suc fuel) cur seen =
      if same cur to
      then some (true, seen)
      else if member cur seen
      then some (false, seen)
      else walk_all (walk to fuel) (above cur) (cur ∷ seen)

  abbrev pub walk_fuel : ℕ
  walk_fuel = length doc.edges + length doc.nodes + 2

  -- The answer where fuel ran out is never seen: Correct shows that fuel is left.
  unfoldable pub would_cycle : String → String → Bool
  would_cycle from to = elim (walk to walk_fuel from []) [ none ↦ true | some (b, _) ↦ b ]

  -- The loop of `checkParent` up the chain of groups; `left` is MaxGroupDepth - depth.
  unfoldable pub climb : String → ℕ → String → Result (Unit {0})
  climb node_id zero cur =
      if same cur "" then ok tt else err (invalid_spec "group nesting too deep")
  climb node_id (suc left) cur =
      if same cur ""
      then ok tt
      else if same cur node_id
      then err (invalid_spec "group cycle detected")
      else elim (find_node doc cur) [
        | none ↦ ok tt
        | some parent ↦ climb node_id left parent.parent_id
      ]

  unfoldable pub check_parent : String → String → Result (Unit {0})
  check_parent node_id parent_id = if same parent_id "" then ok tt else do
    refuse (same node_id parent_id) (invalid_spec "node cannot be its own parent")
    p ← or_fail (find_node doc parent_id) (new_error 404 Code.not_found "parent group not found")
    refuse (not (same p.type node_type_group)) (invalid_spec "parent must be a group node")
    climb node_id max_group_depth parent_id
