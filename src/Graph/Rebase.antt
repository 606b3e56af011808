-- ===== src/Graph/Rebase.antt =====
-- internal/graph/service.go, `rebaseable`: which late operations may follow the operations in flight.
-- A key of `touchedInflight` is a prefix and an id, such as "spec:n1". The prefixes differ and none
-- is a prefix of another, so a key is a constructor with the id.
pub mod Marks
pub mod Footprints
pub mod Safe
use ic.Prelude.{
  ℕ, ◌≡◌, refl, ◌≢◌, String, Bool, true, false, ◌||◌, not, List, [], ◌∷◌, ◌++◌, Option, none, some,
  arith, same, same_iff, map, any, In, In-append, In-map, Bool-cases, Option-cases, inl, inr,
  if◌then◌else◌, ◌⊎◌, ap, sym,
}
use ic.Platform.Errors.{Result, ok, err, Result-cases}
use ic.Graph.Document.{Edge, Endpoint, Node}
use ic.Graph.Operation.{
  Op, RawOp, add_node, remove_node, move_node, resize_node, set_title, set_spec, set_state,
  add_edge, remove_edge, group, ungroup, set_viewport, set_settings, set_parent,
}
use ic.Graph.Apply.Dispatch.{decode_op}
use ic.Graph.Store.{Record}

pub data Touch : Type 0 where
  node geom spec title state edge parent : String → Touch
  global : Touch

unfoldable pub same_touch : Touch → Touch → Bool
same_touch (node a) (node b) = same a b
same_touch (geom a) (geom b) = same a b
same_touch (spec a) (spec b) = same a b
same_touch (title a) (title b) = same a b
same_touch (state a) (state b) = same a b
same_touch (edge a) (edge b) = same a b
same_touch (parent a) (parent b) = same a b
same_touch global global = true
same_touch _ _ = false

abbrev pub has_touch : Touch → List Touch → Bool
has_touch t = any (same_touch t)

module _ {F : Type 0} where
  -- What an operation in flight marks.
  unfoldable pub touches_of : Op F → List Touch
  touches_of (add_node p) = node p.node.id ∷ []
  touches_of (remove_node p) = node p.id ∷ []
  touches_of (move_node p) = geom p.id ∷ []
  touches_of (resize_node p) = geom p.id ∷ []
  touches_of (set_spec p) = spec p.id ∷ []
  touches_of (set_title p) = title p.id ∷ []
  touches_of (set_state p) = state p.id ∷ []
  touches_of (add_edge e) = edge e.id ∷ []
  touches_of (remove_edge id) = edge id ∷ []
  touches_of (set_parent p) = parent p.id ∷ []
  touches_of (group p) = map parent p.node_ids
  touches_of _ = global ∷ []

  -- `none` where an operation in flight cannot be decoded.
  unfoldable pub touched_inflight : List (Record F) → Option (List Touch)
  touched_inflight [] = some []
  touched_inflight (r ∷ rs) =
      let rest = touched_inflight rs in
      elim (decode_op r.op) [
        | err e ↦ none
        | ok op ↦ elim rest [ none ↦ none | some ts ↦ some (touches_of op ++ ts) ]
      ]

  -- Whether a late operation must be refused.
  unfoldable pub conflicts : List Touch → Op F → Bool
  conflicts ts (add_node p) = has_touch (node p.node.id) ts
  conflicts ts (remove_node p) =
      has_touch (node p.id) ts || has_touch (spec p.id) ts || has_touch (geom p.id) ts
  conflicts ts (move_node p) =
      has_touch (spec p.id) ts || has_touch (node p.id) ts || has_touch (title p.id) ts
  conflicts ts (resize_node p) = has_touch (spec p.id) ts || has_touch (node p.id) ts
  conflicts ts (set_spec p) = has_touch (spec p.id) ts || has_touch (node p.id) ts
  conflicts ts (set_title p) = has_touch (title p.id) ts || has_touch (node p.id) ts
  conflicts ts (set_state p) = has_touch (state p.id) ts || has_touch (node p.id) ts
  conflicts ts (add_edge e) = has_touch (node e.to.node_id) ts
  conflicts ts (remove_edge id) = has_touch (node "") ts
  conflicts ts (set_parent p) = has_touch (parent p.id) ts || has_touch (node p.id) ts
  conflicts ts _ = true

  unfoldable pub all_free : List Touch → List (RawOp F) → Bool
  all_free ts [] = true
  all_free ts (raw ∷ raws) =
      let rest = all_free ts raws in
      elim (decode_op raw) [ err e ↦ false | ok op ↦ if conflicts ts op then false else rest ]

  unfoldable pub rebaseable : List (RawOp F) → List (Record F) → Bool
  rebaseable incoming inflight = elim (touched_inflight inflight) [
    | none ↦ false
    | some ts ↦ if has_touch global ts then false else all_free ts incoming
  ]
