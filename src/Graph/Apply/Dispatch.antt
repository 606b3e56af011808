-- ===== src/Graph/Apply/Dispatch.antt =====
-- internal/graph/op.go and op_apply.go: decoding an operation, `applyOne`, and `Apply` on a batch.
use ic.Prelude.{
  ℕ, ◌+◌, String, Bool, false, not, List, [], ◌∷◌, ltb, length, any, if◌then◌else◌, same,
}
use ic.Platform.Errors.{Result, ok, new_error, Code, DomainError, refuse, or_fail, ◌>>=◌, ◌>>◌}
use ic.Platform.Float.{Float64}
use ic.Graph.Document.{Document}
use ic.Graph.Limits.{max_op_batch, max_request_bytes}
use ic.Graph.Schema.{PluginSchemas}
use ic.Graph.Operation.{
  Op, RawOp, Inverse, add_node, remove_node, move_node, resize_node, set_title, set_spec, set_state,
  add_edge, remove_edge, group, ungroup, set_viewport, set_settings, set_parent,
}
use ic.Graph.Apply.Nodes.{
  Effect, apply_add_node, apply_remove_node, apply_move_node, apply_resize_node, apply_set_title,
}
use ic.Graph.Apply.Config.{is_empty, apply_set_spec, apply_set_state}
use ic.Graph.Apply.Edges.{apply_add_edge, apply_remove_edge}
use ic.Graph.Apply.Groups.{apply_group, apply_ungroup, apply_set_parent}
use ic.Graph.Apply.Settings.{apply_set_viewport, apply_set_settings}

abbrev pub all_op_kinds : List String
all_op_kinds =
    "add_node" ∷ "remove_node" ∷ "move_node" ∷ "resize_node" ∷ "set_title" ∷ "set_spec"
    ∷ "set_state" ∷ "add_edge" ∷ "remove_edge" ∷ "group" ∷ "ungroup" ∷ "set_viewport"
    ∷ "set_settings" ∷ "set_parent" ∷ []

abbrev unknown_field : String → DomainError
unknown_field message = new_error 422 Code.unknown_field message

unfoldable pub decode_op : {F : Type 0} → RawOp F → Result (Op F)
decode_op raw = do
  refuse (ltb max_request_bytes raw.size) (new_error 413 Code.payload_too_large "op too large")
  kind ← or_fail raw.kind (unknown_field "op is not readable")
  refuse (same kind "") (unknown_field "op.kind is required")
  refuse (not (any (same kind) all_op_kinds)) (unknown_field "unknown op kind")
  or_fail raw.payload (unknown_field "op payload invalid")

module _ {F : Type 0} ⦃fl : Float64 F⦄ (plugins : PluginSchemas) (actor : String) (now : ℕ) where
  unfoldable pub apply_one : Document F → Op F → Effect F
  apply_one doc (add_node p) = apply_add_node plugins doc p
  apply_one doc (remove_node p) = apply_remove_node doc p
  apply_one doc (move_node p) = apply_move_node doc p
  apply_one doc (resize_node p) = apply_resize_node doc p
  apply_one doc (set_title p) = apply_set_title doc p
  apply_one doc (set_spec p) = apply_set_spec plugins doc p
  apply_one doc (set_state p) = apply_set_state doc p
  apply_one doc (add_edge e) = apply_add_edge doc e actor now
  apply_one doc (remove_edge id) = apply_remove_edge doc id
  apply_one doc (group p) = apply_group doc p
  apply_one doc (ungroup p) = apply_ungroup doc p
  apply_one doc (set_viewport v) = apply_set_viewport doc v
  apply_one doc (set_settings s) = apply_set_settings doc s
  apply_one doc (set_parent p) = apply_set_parent doc p

  -- The loop of `Apply`: the reverse operations come in the order of the operations.
  unfoldable pub apply_all : Document F → List (RawOp F) → Result (Document F × List (Inverse F))
  apply_all doc [] = ok (doc, [])
  apply_all doc (raw ∷ raws) = do
    op ← decode_op raw
    applied ← apply_one doc op
    rest ← apply_all applied.0 raws
    ok (rest.0, applied.1 ∷ rest.1)

pub record ApplyResult (F : Type 0) : Type 0 where
  pub version : ℕ
  pub applied : ℕ
  pub inverse : List (Inverse F)
  pub rebased : Bool

abbrev no_change : {F : Type 0} → ℕ → ApplyResult F
no_change version = record { version = version; applied = 0; inverse = []; rebased = false }

module _ {F : Type 0} ⦃fl : Float64 F⦄ (plugins : PluginSchemas) where
  unfoldable pub apply :
      Document F → List (RawOp F) → String → ℕ → Result (ApplyResult F × Document F)
  apply doc raws actor now = if is_empty raws then ok (no_change doc.version, doc) else (do
    refuse (ltb max_op_batch (length raws))
        (new_error 413 Code.payload_too_large "too many ops in one batch")
    next ← apply_all plugins actor now doc raws
    ok (
      record {
        version = doc.version + 1;
        applied = length raws;
        inverse = next.1;
        rebased = false;
      },
      record (next.0) { version = doc.version + 1; updated_at = now },
    ))
