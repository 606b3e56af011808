-- ===== src/Graph/Bounds/Batch.antt =====
-- The rectangles of a canvas under a batch (internal/graph/op.go, `Apply`).
use ic.Prelude.{ℕ, ◌≡◌, inl, inr, String, true, List, [], ◌∷◌, arith, ap, Option-cases, Bool-cases}
use ic.Prelude.Dict.{insert, delete}
use ic.Platform.Errors.{ok, Result-cases, >>=-eq-ok}
use ic.Platform.Float.{Float64}
use ic.Graph.Document.{Document, Node, Rect, Viewport, Edge, Spec, find_node, children_of}
use ic.Graph.Geometry.{validate_rect}
use ic.Graph.Schema.{PluginSchemas}
use ic.Graph.Operation.{Inverse, RemoveNode, Group, Ungroup}
use ic.Graph.Apply.Nodes.{apply_remove_node, reparent, or_default}
use ic.Graph.Apply.Edges.{apply_add_edge, apply_remove_edge}
use ic.Graph.Apply.Groups.{
  apply_group, apply_ungroup, delete_nodes, group_one, group_all, Grouping, fit_group, group_rect,
}
use ic.Graph.Apply.Settings.{apply_set_viewport, apply_set_settings}
use ic.Graph.Acyclic.Effects.{group_parts}
use ic.Graph.Operation.{
  Op, RawOp, add_node, remove_node, move_node, resize_node, set_title, set_spec, set_state,
  add_edge, remove_edge, group, ungroup, set_viewport, set_settings, set_parent,
}
use ic.Graph.Apply.Dispatch.{apply_one, apply_all, apply, ApplyResult}
use ic.Graph.Acyclic.Steps.{apply_all-cons, apply_cases}
use ic.Graph.Bounds.Nodes.{
  add_node-Writes, move_node-Writes, resize_node-Writes, set_title-Writes, set_spec-Writes,
  set_state-Writes, set_parent-Writes,
}
use ic.Graph.Bounds.Maps.{
  AllInBounds, AllInBounds-of_Writes, AllInBounds-insert, AllInBounds-delete, AllInBounds-reparent,
  AllInBounds-delete_nodes,
}

module _ {F : Type 0} ⦃fl : Float64 F⦄ where
  group_one-AllInBounds :
      (g id : String) (s t : Grouping F)
      → group_one g id s ≡ ok t
      → AllInBounds s.doc.nodes
      → AllInBounds t.doc.nodes
  unfolding group_one
  group_one-AllInBounds g id s t h all = elim (Option-cases (find_node s.doc id)) [
    | inl gone ↦ absurd (ground arith)
    | inr (n, found) ↦
        let e : t.doc.nodes ≡ insert id (record n { parent_id = g }) s.doc.nodes = ground arith in
        rw e (AllInBounds-insert id _ s.doc.nodes (all id n found) all)
  ]

  group_all-AllInBounds :
      (g : String) (ids : List String) (s t : Grouping F)
      → group_all g ids s ≡ ok t
      → AllInBounds s.doc.nodes
      → AllInBounds t.doc.nodes
  unfolding group_all
  group_all-AllInBounds g [] s t h all =
      let e : t.doc.nodes ≡ s.doc.nodes = ground arith in rw e all
  group_all-AllInBounds g (id ∷ ids) s t h all =
      let (m, first, later) = >>=-eq-ok (group_one g id s) (group_all g ids) h in
      group_all-AllInBounds g ids m t later (group_one-AllInBounds g id s m first all)

  -- The group takes only a rectangle that is valid.
  fit_group-AllInBounds :
      (id : String) (n : Node F) (r : Rect F) (s : Grouping F)
      → AllInBounds s.doc.nodes
      → AllInBounds (fit_group id n r s).0.nodes
  unfolding fit_group
  fit_group-AllInBounds id n r s all = elim (Result-cases (validate_rect r)) [
    | inl (u, valid) ↦
        rw (valid, fit_group) (AllInBounds-insert id _ s.doc.nodes (ground arith) all)
    | inr (e, refused) ↦ rw (refused, fit_group) all
  ]

  group-AllInBounds :
      (doc d : Document F) (i : Inverse F) (p : Group F)
      → apply_group doc p ≡ ok (d, i)
      → AllInBounds doc.nodes
      → AllInBounds d.nodes
  group-AllInBounds doc d i p h all =
      let (g, s, _, f, q) = group_parts doc d i p h in
      rw (ap (λ (r : Document F × Inverse F). r.0.nodes) q) (
        fit_group-AllInBounds p.group_id g (group_rect p.rect s.bounds) s
          (group_all-AllInBounds p.group_id p.node_ids _ s f all))

  remove_node-AllInBounds :
      (doc d : Document F) (i : Inverse F) (p : RemoveNode)
      → apply_remove_node doc p ≡ ok (d, i)
      → AllInBounds doc.nodes
      → AllInBounds d.nodes
  unfolding apply_remove_node
  remove_node-AllInBounds doc d i p h all =
      let e : d.nodes ≡ delete p.id (reparent "" (children_of doc p.id) doc.nodes) = ground arith in
      rw e
        (AllInBounds-delete p.id _ (AllInBounds-reparent "" (children_of doc p.id) doc.nodes all))

  ungroup-AllInBounds :
      (doc d : Document F) (i : Inverse F) (p : Ungroup)
      → apply_ungroup doc p ≡ ok (d, i)
      → AllInBounds doc.nodes
      → AllInBounds d.nodes
  unfolding apply_ungroup
  ungroup-AllInBounds doc d i p h all =
      let children = children_of doc p.group_id in
      elim (Bool-cases (or_default p.keep_children true)) [
        | inl kept ↦
            let e : d.nodes ≡ reparent "" children doc.nodes = ground arith in
            rw e (AllInBounds-reparent "" children doc.nodes all)
        | inr gone ↦
            let e : d.nodes ≡ delete p.group_id (delete_nodes children doc.nodes) = ground arith in
            rw e (AllInBounds-delete p.group_id _ (AllInBounds-delete_nodes children doc.nodes all))
      ]

  nodes-add_edge :
      (doc d : Document F) (i : Inverse F) (e : Edge) (actor : String) (now : ℕ)
      → apply_add_edge doc e actor now ≡ ok (d, i)
      → d.nodes ≡ doc.nodes
  unfolding apply_add_edge
  nodes-add_edge doc d i e actor now h = ground arith

  nodes-remove_edge :
      (doc d : Document F) (i : Inverse F) (id : String)
      → apply_remove_edge doc id ≡ ok (d, i)
      → d.nodes ≡ doc.nodes
  unfolding apply_remove_edge
  nodes-remove_edge doc d i id h = ground arith

  nodes-set_viewport :
      (doc d : Document F) (i : Inverse F) (v : Viewport F)
      → apply_set_viewport doc v ≡ ok (d, i)
      → d.nodes ≡ doc.nodes
  unfolding apply_set_viewport
  nodes-set_viewport doc d i v h = ground arith

  nodes-set_settings :
      (doc d : Document F) (i : Inverse F) (m : Spec F)
      → apply_set_settings doc m ≡ ok (d, i)
      → d.nodes ≡ doc.nodes
  unfolding apply_set_settings
  nodes-set_settings doc d i m h = ground arith

module _ {F : Type 0} ⦃fl : Float64 F⦄ (plugins : PluginSchemas) (actor : String) (now : ℕ) where
  apply_one-AllInBounds :
      (doc d : Document F) (i : Inverse F) (op : Op F)
      → apply_one plugins actor now doc op ≡ ok (d, i)
      → AllInBounds doc.nodes
      → AllInBounds d.nodes
  unfolding apply_one
  apply_one-AllInBounds doc d i (add_node p) h all =
      AllInBounds-of_Writes doc d (add_node-Writes plugins doc d i p h) all
  apply_one-AllInBounds doc d i (remove_node p) h all = remove_node-AllInBounds doc d i p h all
  apply_one-AllInBounds doc d i (move_node p) h all =
      AllInBounds-of_Writes doc d (move_node-Writes plugins doc d i p h) all
  apply_one-AllInBounds doc d i (resize_node p) h all =
      AllInBounds-of_Writes doc d (resize_node-Writes plugins doc d i p h) all
  apply_one-AllInBounds doc d i (set_title p) h all =
      AllInBounds-of_Writes doc d (set_title-Writes plugins doc d i p h all) all
  apply_one-AllInBounds doc d i (set_spec p) h all =
      AllInBounds-of_Writes doc d (set_spec-Writes plugins doc d i p h all) all
  apply_one-AllInBounds doc d i (set_state p) h all =
      AllInBounds-of_Writes doc d (set_state-Writes plugins doc d i p h all) all
  apply_one-AllInBounds doc d i (add_edge e) h all = rw (nodes-add_edge doc d i e actor now h) all
  apply_one-AllInBounds doc d i (remove_edge id) h all = rw (nodes-remove_edge doc d i id h) all
  apply_one-AllInBounds doc d i (group p) h all = group-AllInBounds doc d i p h all
  apply_one-AllInBounds doc d i (ungroup p) h all = ungroup-AllInBounds doc d i p h all
  apply_one-AllInBounds doc d i (set_viewport v) h all = rw (nodes-set_viewport doc d i v h) all
  apply_one-AllInBounds doc d i (set_settings m) h all = rw (nodes-set_settings doc d i m h) all
  apply_one-AllInBounds doc d i (set_parent p) h all =
      AllInBounds-of_Writes doc d (set_parent-Writes plugins doc d i p h all) all

  apply_all-AllInBounds :
      (doc d : Document F) (is : List (Inverse F)) (raws : List (RawOp F))
      → apply_all plugins actor now doc raws ≡ ok (d, is)
      → AllInBounds doc.nodes
      → AllInBounds d.nodes
  apply_all-AllInBounds doc d is [] h all =
      let e : d.nodes ≡ doc.nodes = unfold apply_all in ground arith in rw e all
  apply_all-AllInBounds doc d is (raw ∷ raws) h all =
      let (op, m, i, js, _, done, later, _) =
        apply_all-cons plugins actor now doc d is raw raws h in
      apply_all-AllInBounds m d js raws later (apply_one-AllInBounds doc m i op done all)

-- If every node of a canvas has a valid rectangle, that is so after every batch that is accepted.
pub apply-AllInBounds :
    {F : Type 0} ⦃fl : Float64 F⦄ (plugins : PluginSchemas) (doc d : Document F)
    (raws : List (RawOp F)) (actor : String) (now : ℕ) (r : ApplyResult F)
    → AllInBounds doc.nodes
    → apply plugins doc raws actor now ≡ ok (r, d)
    → AllInBounds d.nodes
apply-AllInBounds plugins doc d raws actor now r all h =
    elim (apply_cases plugins doc d raws actor now r h) [
      | inl (_, e) ↦ rw e all
      | inr (m, is, done, e) ↦ rw e (apply_all-AllInBounds plugins actor now doc m is raws done all)
    ]
