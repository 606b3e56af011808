-- ===== src/Graph/Bounds/Nodes.antt =====
-- What each operation does to the rectangles of the nodes.
use ic.Prelude.{◌≡◌, not, ◌||◌, if◌then◌else◌, inl, inr, arith, same, Option-cases, Bool-cases}
use ic.Platform.Errors.{ok, Result-cases}
use ic.Platform.Float.{Float64}
use ic.Graph.Document.{Document, Node, find_node}
use ic.Graph.Geometry.{validate_rect}
use ic.Graph.Schema.{PluginSchemas}
use ic.Graph.Operation.{
  Inverse, AddNode, MoveNode, ResizeNode, SetTitle, SetSpec, SetState, SetParent,
}
use ic.Graph.Apply.Nodes.{
  apply_add_node, apply_move_node, apply_resize_node, apply_set_title, moved_rect, resized_height,
  default_state, set_ports,
}
use ic.Graph.Apply.Config.{
  apply_set_spec, apply_set_state, with_state, is_empty, unset_meta, patch_meta, unset_fields,
  patch_fields,
}
use ic.Graph.Apply.Groups.{apply_set_parent}
use ic.Graph.Bounds.Maps.{AllInBounds, Writes}

module _ {F : Type 0} ⦃fl : Float64 F⦄ (plugins : PluginSchemas) (doc d : Document F)
    (i : Inverse F) where
  pub move_node-Writes : (p : MoveNode F) → apply_move_node doc p ≡ ok (d, i) → Writes doc d
  unfolding apply_move_node
  move_node-Writes p h = elim (Option-cases (find_node doc p.id)) [
    | inl gone ↦ absurd (ground arith)
    | inr (n, found) ↦ record {
      id = p.id;
      node = record n { rect = moved_rect n.rect p };
      fits = ground arith;
      written = ground arith;
    }
  ]

  pub resize_node-Writes : (p : ResizeNode F) → apply_resize_node doc p ≡ ok (d, i) → Writes doc d
  unfolding apply_resize_node
  resize_node-Writes p h = elim (Option-cases (find_node doc p.id)) [
    | inl gone ↦ absurd (ground arith)
    | inr (n, found) ↦ record {
      id = p.id;
      node = record n { rect = record n.rect { w = p.w; h = resized_height n.rect p } };
      fits = ground arith;
      written = ground arith;
    }
  ]

  rect-set_ports : (n m : Node F) → set_ports plugins n ≡ ok m → m.rect ≡ n.rect
  unfolding set_ports
  rect-set_ports n m h = ground arith

  pub add_node-Writes : (p : AddNode F) → apply_add_node plugins doc p ≡ ok (d, i) → Writes doc d
  unfolding apply_add_node
  add_node-Writes p h = elim (Result-cases (set_ports plugins p.node)) [
    | inr (e, failed) ↦ absurd (ground arith)
    | inl (ported, set) ↦
        let valid : validate_rect p.node.rect ≡ ok tt = ground arith in
        record {
          id = (default_state ported).id;
          node = default_state ported;
          fits = ground (arith, rect-set_ports p.node ported set);
          written = ground arith;
        }
  ]

  pub set_title-Writes :
      (p : SetTitle) → apply_set_title doc p ≡ ok (d, i) → AllInBounds doc.nodes → Writes doc d
  unfolding apply_set_title
  set_title-Writes p h all = elim (Option-cases (find_node doc p.id)) [
    | inl gone ↦ absurd (ground arith)
    | inr (n, found) ↦ record {
      id = p.id;
      node = record n { title = if same p.title "" then n.title else p.title };
      fits = all p.id n found;
      written = ground arith;
    }
  ]

  pub set_state-Writes :
      (p : SetState) → apply_set_state doc p ≡ ok (d, i) → AllInBounds doc.nodes → Writes doc d
  unfolding apply_set_state
  set_state-Writes p h all = elim (Option-cases (find_node doc p.id)) [
    | inl gone ↦ absurd (ground arith)
    | inr (n, found) ↦ record {
      id = p.id;
      node = with_state n p;
      fits = all p.id n found;
      written = ground arith;
    }
  ]

  pub set_parent-Writes :
      (p : SetParent) → apply_set_parent doc p ≡ ok (d, i) → AllInBounds doc.nodes → Writes doc d
  unfolding apply_set_parent
  set_parent-Writes p h all = elim (Option-cases (find_node doc p.id)) [
    | inl gone ↦ absurd (ground arith)
    | inr (n, found) ↦ record {
      id = p.id;
      node = record n { parent_id = p.parent_id };
      fits = all p.id n found;
      written = ground arith;
    }
  ]

  -- The node as `set_spec` leaves it, by the channel that is used.
  pub set_spec-Writes :
      (p : SetSpec F)
      → apply_set_spec plugins doc p ≡ ok (d, i)
      → AllInBounds doc.nodes
      → Writes doc d
  unfolding apply_set_spec
  set_spec-Writes p h all = elim (Option-cases (find_node doc p.id)) [
    | inl gone ↦ absurd (ground arith)
    | inr (n, found) ↦ elim (Bool-cases (not (is_empty p.meta) || not (is_empty p.meta_unset))) [
      | inl channel ↦ elim (Result-cases (unset_meta p.meta_unset n.meta)) [
        | inr (e, failed) ↦ absurd (ground arith)
        | inl (kept, done) ↦ elim (Result-cases (patch_meta p.meta kept)) [
          | inr (e, failed) ↦ absurd (ground arith)
          | inl (next, patched) ↦ record {
            id = p.id;
            node = record n { meta = next };
            fits = all p.id n found;
            written = ground arith;
          }
        ]
      ]
      | inr channel ↦ elim (Result-cases (unset_fields plugins n.type p.unset n.spec)) [
        | inr (e, failed) ↦ absurd (ground arith)
        | inl (kept, done) ↦ elim (Result-cases (patch_fields plugins n.type p.patch kept)) [
          | inr (e, failed) ↦ absurd (ground arith)
          | inl (next, patched) ↦ record {
            id = p.id;
            node = record n { spec = next };
            fits = all p.id n found;
            written = ground arith;
          }
        ]
      ]
    ]
  ]
