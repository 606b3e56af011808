-- ===== src/Graph/Apply/Groups.antt =====
-- internal/graph/op_apply.go: group, ungroup and set_parent.
use ic.Prelude.{
  String, Bool, true, false, not, List, [], ◌∷◌, ◌++◌, Option, none, some, if◌then◌else◌, same,
}
use ic.Prelude.Int.{pos}
use ic.Prelude.Dict.{delete, keep_if}
use ic.Platform.Errors.{
  Result, ok, err, new_error, Code, DomainError, refuse, only_if, or_fail, ◌>>=◌, ◌>>◌,
}
use ic.Platform.Float.{Float64, ◌+f◌, ◌-f◌, ◌*f◌}
use ic.Graph.Document.{
  Document, Node, Rect, Edge, find_node, put_node, children_of, node_type_group,
}
use ic.Graph.Geometry.{validate_rect}
use ic.Graph.Schema.{invalid_spec}
use ic.Graph.Cycle.{check_parent}
use ic.Graph.Operation.{Op, resize_node, set_parent, Group, Ungroup, SetParent, Inverse, one, many}
use ic.Graph.Apply.Nodes.{Effect, node_not_found, or_default, touches, reparent, set_parents}
use ic.Graph.Apply.Config.{is_empty}

abbrev group_not_found : DomainError
group_not_found = new_error 404 Code.not_found "group node not found"

-- The smallest box around the rectangles seen so far.
pub record Bounds (F : Type 0) : Type 0 where
  pub min_x : F
  pub min_y : F
  pub max_x : F
  pub max_y : F

-- The document, the reverse operations and the bounds, as the loop of `applyGroup` changes them.
pub record Grouping (F : Type 0) : Type 0 where
  pub doc : Document F
  pub inverse : List (Op F)
  pub bounds : Bounds F

abbrev is_group : {F : Type 0} → Node F → Bool
is_group n = same n.type node_type_group

unfoldable pub untouched : String → List (String × Edge) → List (String × Edge)
untouched id = keep_if (λ e. not (touches id e))

module _ {F : Type 0} ⦃fl : Float64 F⦄ where
  abbrev pub no_bounds : Bounds F
  no_bounds = record {
    min_x = fl.inf;
    min_y = fl.inf;
    max_x = fl.num (pos 0) -f fl.inf;
    max_y = fl.num (pos 0) -f fl.inf;
  }

  abbrev extend : Bounds F → Rect F → Bounds F
  extend b r = record {
    min_x = fl.smaller b.min_x r.x;
    min_y = fl.smaller b.min_y r.y;
    max_x = fl.greater b.max_x (r.x +f r.w);
    max_y = fl.greater b.max_y (r.y +f r.h);
  }

  -- One round of the loop over `NodeIDs`.
  unfoldable pub group_one : String → String → Grouping F → Result (Grouping F)
  group_one group_id id s = do
    n ← or_fail (find_node s.doc id) node_not_found
    refuse (same id group_id) (invalid_spec "cannot group a group into itself")
    refuse (is_group n) (invalid_spec "nested group is not supported in one op")
    check_parent s.doc id group_id
    ok (record {
      doc = put_node s.doc id (record n { parent_id = group_id });
      inverse = s.inverse ++ set_parent (record { id = id; parent_id = n.parent_id }) ∷ [];
      bounds = extend s.bounds n.rect;
    })

  unfoldable pub group_all : String → List String → Grouping F → Result (Grouping F)
  group_all group_id [] s = ok s
  group_all group_id (id ∷ ids) s = do s' ← group_one group_id id s; group_all group_id ids s'

  abbrev pub pad : F
  pad = fl.num (pos 24)

  abbrev pub title_bar : F
  title_bar = fl.num (pos 28)

  abbrev pub two : F
  two = fl.num (pos 2)

  -- The given rectangle, or the members' bounds with a margin.
  abbrev pub group_rect : Option (Rect F) → Bounds F → Rect F
  group_rect (some r) b = r
  group_rect none b = record {
    x = b.min_x -f pad;
    y = b.min_y -f pad -f title_bar;
    w = b.max_x -f b.min_x +f pad *f two;
    h = b.max_y -f b.min_y +f pad *f two +f title_bar;
  }

  -- The group takes the rectangle if that is valid, and otherwise keeps its own.
  unfoldable pub fit_group : String → Node F → Rect F → Grouping F → Document F × Inverse F
  fit_group group_id g rect s = elim (validate_rect rect) [
    | err e ↦ (s.doc, many s.inverse)
    | ok u ↦ (
      put_node s.doc group_id (record g { rect = rect }),
      many (
          s.inverse
          ++ resize_node (record { id = group_id; w = g.rect.w; h = g.rect.h; keep_aspect = false })
            ∷ []),
    )
  ]

  unfoldable pub apply_group : Document F → Group F → Effect F
  apply_group doc p = do
    refuse (is_empty p.node_ids) (invalid_spec "group requires nodeIds")
    refuse (same p.group_id "")
        (new_error 422 Code.invalid_id "groupId is required; create group node first")
    g ← or_fail (find_node doc p.group_id) group_not_found
    refuse (not (is_group g)) group_not_found
    s ← group_all p.group_id p.node_ids (record { doc = doc; inverse = []; bounds = no_bounds })
    ok (fit_group p.group_id g (group_rect p.rect s.bounds) s)

  unfoldable pub delete_nodes : List String → List (String × Node F) → List (String × Node F)
  delete_nodes [] m = m
  delete_nodes (id ∷ ids) m = delete_nodes ids (delete id m)

  unfoldable pub apply_ungroup : Document F → Ungroup → Effect F
  unfolding delete_nodes untouched
  apply_ungroup doc p = do
    g ← or_fail (find_node doc p.group_id) group_not_found
    refuse (not (is_group g)) group_not_found
    let children = children_of doc p.group_id
    ok (
      (if or_default p.keep_children true
          then record doc { nodes = reparent "" children doc.nodes }
          else record doc {
            nodes = delete p.group_id (delete_nodes children doc.nodes);
            edges = untouched p.group_id doc.edges;
          }),
      many (set_parents p.group_id children),
    )

  unfoldable pub apply_set_parent : Document F → SetParent → Effect F
  apply_set_parent doc p = do
    n ← or_fail (find_node doc p.id) node_not_found
    check_parent doc p.id p.parent_id
    only_if (not (same p.parent_id "")) (validate_rect n.rect)
    ok (
      put_node doc p.id (record n { parent_id = p.parent_id }),
      one (set_parent (record { id = p.id; parent_id = n.parent_id })),
    )
