-- ===== src/Graph/Samples.antt =====
-- Small documents, and what the operations do on them.
use ic.Prelude.{
  ℕ, ◌≡◌, refl, String, Bool, true, false, List, [], ◌∷◌, none, some, same, sort_strings,
}
use ic.Prelude.Int.{pos, ◌+ℤ◌, ◌-ℤ◌}
use ic.Prelude.Dict.{lookup, insert, delete, has}
use ic.Platform.Errors.{Result, ok, err}
use ic.Platform.Sample.{Sample, fin, sample_float}
use ic.Graph.Document.{
  edge_ids, valid_node_state, valid_resource_kind, default_settings, Document, Node, Rect, Edge,
  Port, new_document, upstream_of,
}
use ic.Graph.Ids.{valid_id, valid_node_type_id}
use ic.Graph.Geometry.{check_coord, validate_rect}
use ic.Graph.Schema.{builtin_schemas, schema_for}
use ic.Graph.Validate.{text_of, validate_spec}
use ic.Graph.Cycle.{would_cycle, walk, walk_all, above, check_parent, find_port}
use ic.Graph.Operation.{Op, RawOp, add_node, add_edge}
use ic.Graph.Apply.Nodes.{apply_add_node, set_ports}
use ic.Graph.Apply.Edges.{apply_add_edge}
use ic.Graph.Apply.Dispatch.{apply_one, apply_all, apply, decode_op}

abbrev pub rect_at : ℕ → ℕ → Rect Sample
rect_at x y = record { x = fin (pos x); y = fin (pos y); w = fin (pos 100); h = fin (pos 100) }

-- A node as a client sends it.
abbrev pub fresh_node : String → String → Node Sample
fresh_node id type = record {
  id = id;
  type = type;
  title = "";
  rect = rect_at 0 0;
  z = pos 0;
  parent_id = "";
  ports = record { inputs = []; outputs = [] };
  spec = [];
  state = "";
  result = none;
  error = none;
  locked = false;
  meta = [];
}

abbrev pub edge_between : String → String → String → Edge
edge_between id from to = record {
  id = id;
  from = record { node_id = from; port_id = "out" };
  to = record { node_id = to; port_id = "in" };
  kind = "";
  created_by = "";
  created_at = 0;
}

abbrev pub raw_op : String → Op Sample → RawOp Sample
raw_op kind op = record { size = 100; kind = some kind; payload = some op }

abbrev pub blank : Document Sample
blank = new_document "cv" "p"

program : Unit {0}
unfolding apply apply_one apply_all decode_op apply_add_node set_ports apply_add_edge valid_id
    valid_node_type_id check_coord validate_rect schema_for builtin_schemas validate_spec
    would_cycle walk walk_all above find_port same lookup insert has upstream_of edge_ids text_of
    valid_node_state valid_resource_kind sort_strings new_document ◌+ℤ◌ ◌-ℤ◌ check_parent delete
program = tt

abbrev pub chain_ops : List (RawOp Sample)
chain_ops =
    raw_op "add_node" (add_node (record { node = fresh_node "a" "image" }))
    ∷ raw_op "add_node" (add_node (record { node = fresh_node "b" "image" }))
    ∷ raw_op "add_node" (add_node (record { node = fresh_node "c" "image" }))
    ∷ raw_op "add_edge" (add_edge (edge_between "e1" "a" "b"))
    ∷ raw_op "add_edge" (add_edge (edge_between "e2" "b" "c"))
    ∷ []

abbrev image_port : Bool → String → Port
image_port multiple id = record {
  id = id;
  name = id;
  kind = "image";
  multiple = multiple;
  required = false;
  order = pos 0;
}

-- An image node as the document holds it.
abbrev pub image_node : String → Node Sample
image_node id = record (fresh_node id "image") {
  ports = record {
    inputs = record (image_port true "in") { name = "input" } ∷ [];
    outputs = record (image_port false "out") { name = "image" } ∷ [];
  };
  state = "idle";
}

abbrev pub stored : String → String → String → Edge
stored id from to = record (edge_between id from to) {
  kind = "image";
  created_by = "ann";
  created_at = 5;
}

-- Three images in a row.
abbrev pub chain : Document Sample
chain = record {
  id = "cv";
  project_id = "p";
  version = 1;
  viewport = record { x = fin (pos 0); y = fin (pos 0); k = fin (pos 1) };
  settings = default_settings;
  nodes = ("a", image_node "a") ∷ ("b", image_node "b") ∷ ("c", image_node "c") ∷ [];
  edges = ("e1", stored "e1" "a" "b") ∷ ("e2", stored "e2" "b" "c") ∷ [];
  updated_at = 5;
}

abbrev pub value : {A : Type 0} → A → Result A → A
value d (ok r) = r
value d (err e) = d

abbrev pub head_of : {A B : Type 0} → A → Result (A × B) → A
head_of d (ok r) = r.0
head_of d (err e) = d

abbrev pub after : {A B : Type 0} → B → Result (A × B) → B
after d (ok r) = r.1
after d (err e) = d

apply-chain_ops : after blank (apply none blank chain_ops "ann" 5) ≡ chain
unfolding program
apply-chain_ops = refl

would_cycle_back : would_cycle chain "c" "a" ≡ true
unfolding program
would_cycle_back = refl

would_cycle_forth : would_cycle chain "a" "c" ≡ false
unfolding program
would_cycle_forth = refl
