-- ===== src/Graph/Examples.antt =====
-- The theorems on documents, at the small documents of Samples.
use ic.Prelude.{
  ◌≡◌, ◌↔◌, refl, ap, sym, ◌∙◌, true, false, [], ◌∷◌, none, some, same, sort_strings, arith,
}
use ic.Prelude.Int.{pos, ◌+ℤ◌, ◌-ℤ◌}
use ic.Prelude.Dict.{lookup, insert, delete, has}
use ic.Platform.Errors.{ok}
use ic.Platform.Sample.{Sample, fin, sample_float}
use ic.Graph.Document.{
  Document, Node, text, find_node, edge_ids, valid_node_state, valid_resource_kind, new_document,
  upstream_of,
}
use ic.Graph.Ids.{valid_id, valid_node_type_id, is_plugin_type}
use ic.Graph.Geometry.{check_coord, validate_rect}
use ic.Graph.Schema.{builtin_schemas, schema_for}
use ic.Graph.Validate.{text_of, field_fits, validate_spec}
use ic.Graph.Cycle.{would_cycle, walk, walk_all, above, check_parent, find_port}
use ic.Graph.Cycle.Walk.{Ascends}
use ic.Graph.Cycle.Correct.{would_cycle_iff}
use ic.Graph.Operation.{Inverse, one, many, MoveNode, SetSpec, set_spec, move_node}
use ic.Graph.Apply.Nodes.{apply_add_node, apply_move_node, set_ports}
use ic.Graph.Apply.Edges.{apply_add_edge}
use ic.Graph.Apply.Dispatch.{apply_one, apply_all, apply, decode_op, ApplyResult}
use ic.Graph.Acyclic.Steps.{IsSound, apply-IsSound}
use ic.Graph.Bounds.Maps.{AllInBounds}
use ic.Graph.Bounds.Batch.{apply-AllInBounds}
use ic.Graph.Undo.Nodes.{apply_one-Undoes, Undoes, move}
use ic.Graph.Undo.Config.{NodeHas, set_spec_undo_keeps, set_spec_drops_patch}
use ic.Graph.Apply.Config.{
  apply_set_spec, patch_fields, unset_fields, apply_set_meta, patch_meta, unset_meta, schema_field,
  tolerate, validate_meta_key, normalize_json_numbers,
}
use ic.Graph.Plugins.{add_node-not_plugin}
use ic.Graph.Replay.{replay, replay_from, version-replay}
use ic.Graph.Samples.{value, blank, image_node, chain, chain_ops, fresh_node, head_of}

program : Unit {0}
unfolding apply apply_one apply_all decode_op apply_add_node set_ports apply_add_edge valid_id
    valid_node_type_id check_coord validate_rect schema_for builtin_schemas validate_spec
    would_cycle walk walk_all above find_port same lookup insert has upstream_of edge_ids text_of
    valid_node_state valid_resource_kind sort_strings new_document ◌+ℤ◌ ◌-ℤ◌ check_parent delete
    replay replay_from apply_move_node apply_set_spec patch_fields unset_fields apply_set_meta
    patch_meta unset_meta schema_field tolerate field_fits validate_meta_key normalize_json_numbers
program = tt

would_cycle_iff_example : (would_cycle chain "c" "a" ≡ true) ↔ Ascends chain "a" "c"
would_cycle_iff_example = would_cycle_iff chain "c" "a"

nothing : ApplyResult Sample
nothing = record { version = 0; applied = 0; inverse = []; rebased = false }

abbrev built : ApplyResult Sample
built =
    head_of (record { version = 0; applied = 0; inverse = []; rebased = false })
      (apply none blank chain_ops "ann" 5)

blank_builds : apply none blank chain_ops "ann" 5 ≡ ok (built, chain)
unfolding program
blank_builds = refl

blank-IsSound : IsSound blank.edges
unfolding program
blank-IsSound = record {
  distinct = tt;
  acyclic = λ a b r l. let f = l.found in absurd (ground arith);
}

blank-AllInBounds : AllInBounds blank.nodes
unfolding program
blank-AllInBounds id n h = absurd (ground arith)

apply-IsSound_example : IsSound chain.edges
apply-IsSound_example =
    apply-IsSound none blank chain chain_ops "ann" 5 built blank-IsSound blank_builds

apply-AllInBounds_example : AllInBounds chain.nodes
apply-AllInBounds_example =
    apply-AllInBounds none blank chain chain_ops "ann" 5 built blank-AllInBounds blank_builds

abbrev shift : MoveNode Sample
shift = record { id = "a"; x = fin (pos 40); y = fin (pos 7); delta = true }

abbrev shifted : Document Sample × Inverse Sample
shifted = value (chain, many []) (apply_move_node chain shift)

move_works : apply_one none "ann" 6 chain (move_node shift) ≡ ok (shifted.0, shifted.1)
unfolding program
move_works = refl

apply_one-Undoes_example : Undoes none "ann" 6 chain shifted.0 shifted.1
apply_one-Undoes_example =
    apply_one-Undoes none "ann" 6 chain shifted.0 shifted.1 (move_node shift)
      apply-AllInBounds_example (move shift) move_works

-- The first image has a MIME type.
abbrev marked : Document Sample
marked = record chain {
  nodes =
      ("a", record (image_node "a") { spec = ("mime", text "image/png") ∷ [] })
      ∷ ("b", image_node "b")
      ∷ ("c", image_node "c")
      ∷ [];
}

abbrev add_fit : SetSpec Sample
add_fit = record {
  id = "a";
  patch = ("fit", text "cover") ∷ [];
  unset = [];
  meta = [];
  meta_unset = [];
}

abbrev fitted : Document Sample
fitted = record chain {
  nodes =
      (
        "a",
        record (image_node "a") { spec = ("mime", text "image/png") ∷ ("fit", text "cover") ∷ [] },
      )
      ∷ ("b", image_node "b")
      ∷ ("c", image_node "c")
      ∷ [];
}

abbrev undo_fit : SetSpec Sample
undo_fit = record {
  id = "a";
  patch = ("mime", text "image/png") ∷ [];
  unset = [];
  meta = [];
  meta_unset = [];
}

add_fit_works : apply_set_spec none marked add_fit ≡ ok (fitted, one (set_spec undo_fit))
unfolding program
add_fit_works = refl

abbrev undone : Document Sample × Inverse Sample
undone = value (chain, many []) (apply_set_spec none fitted undo_fit)

undo_fit_works : apply_set_spec none fitted undo_fit ≡ ok (undone.0, undone.1)
unfolding program
undo_fit_works = refl

no_fit : NodeHas marked "a" "fit" → ⊥
unfolding lookup same
no_fit (n, found, (v, has_it)) =
    let e : n.spec ≡ ("mime", text "image/png") ∷ [] = ground arith in
    let none_there : none ≡ some v = ap (lookup "fit") (sym e) ∙ has_it in ground arith

fit_there : NodeHas fitted "a" "fit"
unfolding lookup same
fit_there = (
  record (image_node "a") { spec = ("mime", text "image/png") ∷ ("fit", text "cover") ∷ [] },
  refl,
  (text "cover", refl),
)

set_spec_undo_keeps_example : NodeHas undone.0 "a" "fit"
set_spec_undo_keeps_example =
    set_spec_undo_keeps none marked fitted undone.0 add_fit undo_fit undone.1 "fit" add_fit_works
      no_fit fit_there undo_fit_works

abbrev both : SetSpec Sample
both = record {
  id = "a";
  patch = ("fit", text "cover") ∷ [];
  unset = [];
  meta = ("note", text "hero") ∷ [];
  meta_unset = [];
}

abbrev noted : Document Sample × Inverse Sample
noted = value (chain, many []) (apply_set_spec none marked both)

both_works : apply_set_spec none marked both ≡ ok (noted.0, noted.1)
unfolding program
both_works = refl

set_spec_drops_patch_example :
    (n m : Node Sample) × (find_node marked "a" ≡ some n)
    × (find_node noted.0 "a" ≡ some m)
    × (m.spec ≡ n.spec)
set_spec_drops_patch_example = set_spec_drops_patch none marked noted.0 noted.1 both refl both_works

abbrev with_a : Document Sample × Inverse Sample
with_a =
    value (chain, many []) (apply_add_node none blank (record { node = fresh_node "a" "image" }))

add_a_works :
    apply_add_node none blank (record { node = fresh_node "a" "image" }) ≡ ok (with_a.0, with_a.1)
unfolding program
add_a_works = refl

add_node-not_plugin_example : is_plugin_type "image" ≡ false
add_node-not_plugin_example =
    add_node-not_plugin none blank with_a.0 with_a.1 (record { node = fresh_node "a" "image" })
      add_a_works

abbrev replayed : Document Sample
replayed = value chain (replay none chain chain_ops 9)

replay_works : replay none chain chain_ops 9 ≡ ok replayed
unfolding program
replay_works = refl

version-replay_example : replayed.version ≡ 5
version-replay_example = version-replay none chain replayed chain_ops 9 replay_works
