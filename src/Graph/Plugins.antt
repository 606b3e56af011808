-- ===== src/Graph/Plugins.antt =====
-- internal/graph/op_apply.go, applyAddNode, on the node types that plugins declare.
use ic.Prelude.{◌≡◌, false, arith, Bool-cases, inl, inr}
use ic.Platform.Errors.{ok}
use ic.Platform.Float.{Float64}
use ic.Graph.Document.{Document}
use ic.Graph.Ids.{is_plugin_type, is_plugin_type_of_valid, valid_node_type_id}
use ic.Graph.Schema.{PluginSchemas}
use ic.Graph.Operation.{AddNode, Inverse}
use ic.Graph.Apply.Nodes.{apply_add_node}

-- No accepted add_node has a plugin's node type, whatever schemas the plugins declare.
pub add_node-not_plugin :
    {F : Type 0} ⦃fl : Float64 F⦄ (plugins : PluginSchemas) (doc d : Document F) (i : Inverse F)
    (p : AddNode F)
    → apply_add_node plugins doc p ≡ ok (d, i)
    → is_plugin_type p.node.type ≡ false
unfolding apply_add_node
add_node-not_plugin plugins doc d i p h = elim (Bool-cases (valid_node_type_id p.node.type)) [
  | inl valid ↦ is_plugin_type_of_valid p.node.type valid
  | inr bad ↦ absurd (ground arith)
]
