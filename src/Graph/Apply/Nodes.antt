-- ===== src/Graph/Apply/Nodes.antt =====
-- internal/graph/op_apply.go: add_node, remove_node, move_node, resize_node and set_title.
use ic.Prelude.{
  String, len, Bool, true, false, ◌&&◌, ◌||◌, not, List, [], ◌∷◌, ◌++◌, Option, none, some, ltb,
  leb, map, keep, length, if◌then◌else◌, same,
}
use ic.Prelude.Int.{pos}
use ic.Prelude.Dict.{lookup, insert, delete, has, values}
use ic.Platform.Errors.{
  Result, ok, err, new_error, Code, DomainError, refuse, only_if, or_fail, ◌>>=◌, ◌>>◌,
}
use ic.Platform.Float.{Float64, ◌+f◌, ◌*f◌, ◌/f◌, ◌<f◌}
use ic.Graph.Document.{
  Document, Node, Rect, Edge, find_node, put_node, children_of, valid_node_state,
}
use ic.Graph.Limits.{max_title_len, max_nodes_per_canvas}
use ic.Graph.Ids.{valid_id, valid_node_type_id, is_plugin_type}
use ic.Graph.Geometry.{check_coord, validate_rect}
use ic.Graph.Schema.{PluginSchemas, schema_for, invalid_spec}
use ic.Graph.Validate.{validate_spec}
use ic.Graph.Cycle.{check_parent}
use ic.Graph.Operation.{
  Op, add_node, remove_node, move_node, resize_node, set_title, set_parent, add_edge, AddNode,
  RemoveNode, MoveNode, ResizeNode, SetTitle, Inverse, one, many,
}

abbrev pub node_not_found : DomainError
node_not_found = new_error 404 Code.not_found "node not found"

-- `if p != nil { d = *p }`
abbrev pub or_default : Option Bool → Bool → Bool
or_default none d = d
or_default (some b) d = b

-- What an operation returns: the document and the reverse operation.
abbrev pub Effect : Type 0 → Type 0
Effect F = Result (Document F × Inverse F)

abbrev pub touches : String → Edge → Bool
touches id e = same e.from.node_id id || same e.to.node_id id

unfoldable pub delete_edges : List Edge → List (String × Edge) → List (String × Edge)
delete_edges [] m = m
delete_edges (e ∷ es) m = delete_edges es (delete e.id m)

module _ {F : Type 0} ⦃fl : Float64 F⦄ where
  -- Built-in ports come from the schema; an unknown type that no plugin can have is refused.
  unfoldable pub set_ports : PluginSchemas → Node F → Result (Node F)
  set_ports plugins n = elim (schema_for plugins n.type) [
    | some s ↦ ok (record n { ports = s.ports })
    | none ↦
        if is_plugin_type n.type
        then ok n
        else err (new_error 422 Code.invalid_node_type "unknown node type")
  ]

  abbrev pub default_state : Node F → Node F
  default_state n = if same n.state "" then record n { state = "idle" } else n

  unfoldable pub apply_add_node : PluginSchemas → Document F → AddNode F → Effect F
  apply_add_node plugins doc p = do
    let given = p.node
    refuse (not (valid_id given.id)) (new_error 422 Code.invalid_id "node id is invalid")
    refuse (has given.id doc.nodes) (new_error 409 Code.conflict "node already exists")
    refuse (not (valid_node_type_id given.type))
        (new_error 422 Code.invalid_node_type "invalid node type")
    validate_rect given.rect
    refuse (ltb max_title_len (len given.title)) (invalid_spec "title too long")
    refuse (leb max_nodes_per_canvas (length doc.nodes))
        (new_error 413 Code.payload_too_large "canvas node limit reached")
    ported ← set_ports plugins given
    validate_spec plugins ported.type ported.spec
    let n = default_state ported
    refuse (not (valid_node_state n.state)) (invalid_spec "invalid node state")
    only_if (not (same n.parent_id "")) (check_parent doc n.id n.parent_id)
    ok (put_node doc n.id n, one (remove_node (record { id = n.id; cascade = some true })))

  -- doc.Nodes[id] = withParent(doc.Nodes[id], parent), for each of the ids
  unfoldable pub reparent : String → List String → List (String × Node F) → List (String × Node F)
  reparent parent [] m = m
  reparent parent (id ∷ ids) m =
      reparent parent ids
        (elim (lookup id m) [ none ↦ m | some n ↦ insert id (record n { parent_id = parent }) m ])

  abbrev pub set_parents : String → List String → List (Op F)
  set_parents parent ids = map (λ id. set_parent (record { id = id; parent_id = parent })) ids

  unfoldable pub apply_remove_node : Document F → RemoveNode → Effect F
  unfolding delete_edges reparent
  apply_remove_node doc p = do
    n ← or_fail (find_node doc p.id) node_not_found
    let children = children_of doc p.id
    let edges = keep (touches p.id) (values doc.edges)
    refuse (not (or_default p.cascade true) && ltb 0 (length edges))
        (new_error 409 Code.conflict "node has connections; cascade=false")
    ok (
      record doc {
        edges = delete_edges edges doc.edges;
        nodes = delete p.id (reparent "" children doc.nodes);
      },
      many (add_node (record { node = n }) ∷ set_parents p.id children ++ map add_edge edges),
    )

  abbrev pub moved_rect : Rect F → MoveNode F → Rect F
  moved_rect r p =
      if p.delta then record r { x = r.x +f p.x; y = r.y +f p.y } else record r { x = p.x; y = p.y }

  unfoldable pub apply_move_node : Document F → MoveNode F → Effect F
  apply_move_node doc p = do
    n ← or_fail (find_node doc p.id) node_not_found
    check_coord p.x
    check_coord p.y
    let rect = moved_rect n.rect p
    validate_rect rect
    ok (
      put_node doc p.id (record n { rect = rect }),
      one (move_node (record { id = p.id; x = n.rect.x; y = n.rect.y; delta = false })),
    )

  abbrev pub resized_height : Rect F → ResizeNode F → F
  resized_height prev p =
      if p.keep_aspect
        && fl.num (pos 0) <f prev.h
        && fl.num (pos 0) <f prev.w
        && fl.num (pos 0) <f p.w
      then prev.h *f (p.w /f prev.w)
      else p.h

  unfoldable pub apply_resize_node : Document F → ResizeNode F → Effect F
  apply_resize_node doc p = do
    n ← or_fail (find_node doc p.id) node_not_found
    let prev = n.rect
    let rect = record prev { w = p.w; h = resized_height prev p }
    validate_rect rect
    ok (
      put_node doc p.id (record n { rect = rect }),
      one (resize_node (record { id = p.id; w = prev.w; h = prev.h; keep_aspect = false })),
    )

  unfoldable pub apply_set_title : Document F → SetTitle → Effect F
  apply_set_title doc p = do
    n ← or_fail (find_node doc p.id) node_not_found
    refuse (ltb max_title_len (len p.title)) (invalid_spec "title too long")
    let title = if same p.title "" then n.title else p.title
    ok (
      put_node doc p.id (record n { title = title }),
      one (set_title (record { id = p.id; title = n.title })),
    )
