-- ===== src/Graph/Apply/Edges.antt =====
-- internal/graph/op_apply.go: add_edge and remove_edge.
use ic.Prelude.{ℕ, String, Bool, ◌&&◌, ◌||◌, not, List, leb, length, if◌then◌else◌, same, ◌==◌}
use ic.Prelude.Dict.{lookup, insert, delete, has, keep_if}
use ic.Platform.Errors.{ok, new_error, Code, DomainError, refuse, or_fail, ◌>>=◌, ◌>>◌}
use ic.Graph.Document.{
  Document, Edge, Endpoint, Port, find_node, valid_resource_kind, node_type_group,
}
use ic.Graph.Limits.{max_edges_per_canvas}
use ic.Graph.Ids.{valid_id}
use ic.Graph.Schema.{invalid_spec}
use ic.Graph.Cycle.{find_port, would_cycle}
use ic.Graph.Operation.{add_edge, remove_edge, one}
use ic.Graph.Apply.Nodes.{Effect}

abbrev pub same_end : Endpoint → Endpoint → Bool
same_end a b = same a.node_id b.node_id && same a.port_id b.port_id

-- A single-input port keeps no other edge.
unfoldable pub drop_into : Endpoint → List (String × Edge) → List (String × Edge)
drop_into to = keep_if (λ ex. not (same_end ex.to to))

-- The edge as it is stored: its kind, its time and its author filled in.
abbrev pub stored_edge : Edge → String → String → ℕ → Edge
stored_edge e kind actor now = record e {
  kind = kind;
  created_at = if e.created_at == 0 then now else e.created_at;
  created_by = if same e.created_by "" then actor else e.created_by;
}

abbrev pub edge_kind : Edge → Port → String
edge_kind e out_port = if same e.kind "" then out_port.kind else e.kind

-- The edges that stay when `e` is connected to an input port.
abbrev pub room_for : Edge → Port → List (String × Edge) → List (String × Edge)
room_for e in_port edges = if in_port.multiple then edges else drop_into e.to edges

abbrev endpoint_not_found : DomainError
endpoint_not_found = new_error 404 Code.not_found "edge endpoint node not found"

module _ {F : Type 0} where
  unfoldable pub apply_add_edge : Document F → Edge → String → ℕ → Effect F
  apply_add_edge doc e actor now = do
    refuse (same e.id "") (new_error 422 Code.invalid_id "edge id is required")
    refuse (not (valid_id e.id)) (new_error 422 Code.invalid_id "edge id is invalid")
    refuse (has e.id doc.edges) (new_error 409 Code.conflict "edge already exists")
    refuse (leb max_edges_per_canvas (length doc.edges))
        (new_error 413 Code.payload_too_large "edge limit reached")
    from ← or_fail (find_node doc e.from.node_id) endpoint_not_found
    to ← or_fail (find_node doc e.to.node_id) endpoint_not_found
    refuse (same e.from.node_id e.to.node_id) (invalid_spec "self connection is not allowed")
    refuse (same from.type node_type_group || same to.type node_type_group)
        (invalid_spec "group node cannot be connected")
    out_port ←
        or_fail (find_port from.ports.outputs e.from.port_id) (invalid_spec "source port not found")
    in_port ←
        or_fail (find_port to.ports.inputs e.to.port_id) (invalid_spec "target port not found")
    let kind = edge_kind e out_port
    refuse (not (valid_resource_kind kind)) (invalid_spec "invalid resource kind")
    refuse (not (same out_port.kind in_port.kind)) (invalid_spec "port kind mismatch")
    refuse (not (same out_port.kind kind)) (invalid_spec "edge kind does not match port kind")
    let cleared = record doc { edges = room_for e in_port doc.edges }
    refuse (would_cycle cleared e.from.node_id e.to.node_id)
        (invalid_spec "connection would create a cycle")
    ok (
      record cleared { edges = insert e.id (stored_edge e kind actor now) cleared.edges },
      one (remove_edge e.id),
    )

  unfoldable pub apply_remove_edge : Document F → String → Effect F
  apply_remove_edge doc id = do
    e ← or_fail (lookup id doc.edges) (new_error 404 Code.not_found "edge not found")
    ok (record doc { edges = delete id doc.edges }, one (add_edge e))
