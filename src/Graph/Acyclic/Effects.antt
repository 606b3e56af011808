-- ===== src/Graph/Acyclic/Effects.antt =====
-- What each operation of internal/graph/op_apply.go does to the edges.
use ic.Prelude.{
  ℕ, ◌≡◌, refl, inl, inr, String, true, false, List, [], ◌∷◌, some, arith, ap, ◌∙◌, Option-cases,
  Bool-cases, keep,
}
use ic.Prelude.Dict.{
  values, insert, delete, Distinct, Sub, Distinct-delete, Sub-delete, Sub-keep_if, Distinct-keep_if,
}
use ic.Platform.Errors.{ok, >>=-eq-ok, Result-cases}
use ic.Platform.Float.{Float64}
use ic.Graph.Document.{Document, Port, Edge, Viewport, Spec, Node, Rect, find_node}
use ic.Graph.Schema.{PluginSchemas}
use ic.Graph.Cycle.{would_cycle, find_port}
use ic.Graph.Operation.{
  Inverse, AddNode, RemoveNode, MoveNode, ResizeNode, SetTitle, SetSpec, SetState, Group, Ungroup,
  SetParent,
}
use ic.Graph.Apply.Nodes.{
  apply_add_node, apply_remove_node, apply_move_node, apply_resize_node, apply_set_title,
  delete_edges, touches, or_default,
}
use ic.Graph.Apply.Config.{apply_set_spec, apply_set_state}
use ic.Graph.Apply.Edges.{
  apply_add_edge, apply_remove_edge, drop_into, room_for, stored_edge, edge_kind,
}
use ic.Graph.Apply.Groups.{
  apply_group, apply_ungroup, apply_set_parent, untouched, group_one, group_all, Grouping,
  fit_group, no_bounds, group_rect,
}
use ic.Graph.Apply.Settings.{apply_set_viewport, apply_set_settings}

module _ {F : Type 0} ⦃fl : Float64 F⦄ (plugins : PluginSchemas) (doc d : Document F)
    (i : Inverse F) where
  pub edges-add_node :
      (p : AddNode F) → apply_add_node plugins doc p ≡ ok (d, i) → d.edges ≡ doc.edges
  unfolding apply_add_node
  edges-add_node p h = ground arith

  pub edges-move_node : (p : MoveNode F) → apply_move_node doc p ≡ ok (d, i) → d.edges ≡ doc.edges
  unfolding apply_move_node
  edges-move_node p h = ground arith

  pub edges-resize_node :
      (p : ResizeNode F) → apply_resize_node doc p ≡ ok (d, i) → d.edges ≡ doc.edges
  unfolding apply_resize_node
  edges-resize_node p h = ground arith

  pub edges-set_title : (p : SetTitle) → apply_set_title doc p ≡ ok (d, i) → d.edges ≡ doc.edges
  unfolding apply_set_title
  edges-set_title p h = ground arith

  pub edges-set_spec :
      (p : SetSpec F) → apply_set_spec plugins doc p ≡ ok (d, i) → d.edges ≡ doc.edges
  unfolding apply_set_spec
  edges-set_spec p h = ground arith

  pub edges-set_state : (p : SetState) → apply_set_state doc p ≡ ok (d, i) → d.edges ≡ doc.edges
  unfolding apply_set_state
  edges-set_state p h = ground arith

  pub edges-set_parent : (p : SetParent) → apply_set_parent doc p ≡ ok (d, i) → d.edges ≡ doc.edges
  unfolding apply_set_parent
  edges-set_parent p h = ground arith

  pub edges-set_viewport :
      (v : Viewport F) → apply_set_viewport doc v ≡ ok (d, i) → d.edges ≡ doc.edges
  unfolding apply_set_viewport
  edges-set_viewport v h = ground arith

  pub edges-set_settings : (s : Spec F) → apply_set_settings doc s ≡ ok (d, i) → d.edges ≡ doc.edges
  unfolding apply_set_settings
  edges-set_settings s h = ground arith

module _ {F : Type 0} ⦃fl : Float64 F⦄ where
  edges-group_one :
      (g id : String) (s t : Grouping F) → group_one g id s ≡ ok t → t.doc.edges ≡ s.doc.edges
  unfolding group_one
  edges-group_one g id s t h = ground arith

  edges-group_all :
      (g : String) (ids : List String) (s t : Grouping F)
      → group_all g ids s ≡ ok t
      → t.doc.edges ≡ s.doc.edges
  unfolding group_all
  edges-group_all g [] s t h = ground arith
  edges-group_all g (id ∷ ids) s t h =
      let (m, first, later) = >>=-eq-ok (group_one g id s) (group_all g ids) h in
      edges-group_all g ids m t later ∙ edges-group_one g id s m first

  edges-fit_group :
      (id : String) (n : Node F) (r : Rect F) (s : Grouping F)
      → (fit_group id n r s).0.edges ≡ s.doc.edges
  unfolding fit_group
  edges-fit_group id n r s = ground arith

  -- What `group` did: the loop, and then the rectangle.
  pub group_parts :
      (doc d : Document F) (i : Inverse F) (p : Group F)
      → apply_group doc p ≡ ok (d, i)
      → (g : Node F) × (s : Grouping F) × (find_node doc p.group_id ≡ some g)
        × (group_all p.group_id p.node_ids (record { doc = doc; inverse = []; bounds = no_bounds })
            ≡ ok s)
        × ((d, i) ≡ fit_group p.group_id g (group_rect p.rect s.bounds) s)
  unfolding apply_group
  group_parts doc d i p h = elim (Option-cases (find_node doc p.group_id)) [
    | inl e ↦ absurd (ground arith)
    | inr (g, e) ↦
        let start : Grouping F = record { doc = doc; inverse = []; bounds = no_bounds } in
        elim (Result-cases (group_all p.group_id p.node_ids start)) [
          | inl (s, f) ↦ (g, s, e, f, ground arith)
          | inr (x, f) ↦ absurd (ground arith)
        ]
  ]

  pub edges-group :
      (doc d : Document F) (i : Inverse F) (p : Group F)
      → apply_group doc p ≡ ok (d, i)
      → d.edges ≡ doc.edges
  edges-group doc d i p h =
      let (g, s, _, f, q) = group_parts doc d i p h in
      ap (λ (r : Document F × Inverse F). r.0.edges) q
      ∙ edges-fit_group p.group_id g (group_rect p.rect s.bounds) s
      ∙ edges-group_all p.group_id p.node_ids _ s f

-- Some edges are gone, and no other has changed.
pub record Fewer (m n : List (String × Edge)) : Type 0 where
  pub distinct : Distinct m
  pub sub : Sub m n

Fewer-refl : (m n : List (String × Edge)) → m ≡ n → Distinct n → Fewer m n
Fewer-refl m n e d = rw e (record { distinct = d; sub = λ k v h. h })

delete_edges-Fewer :
    (es : List Edge) (m : List (String × Edge)) → Distinct m → Fewer (delete_edges es m) m
unfolding delete_edges
delete_edges-Fewer [] m d = Fewer-refl m m refl d
delete_edges-Fewer (e ∷ es) m d =
    let r = delete_edges-Fewer es (delete e.id m) (Distinct-delete e.id m d) in
    record { distinct = r.distinct; sub = λ k v h. Sub-delete e.id m k v (r.sub k v h) }

module _ {F : Type 0} ⦃fl : Float64 F⦄ (doc d : Document F) (i : Inverse F)
    (distinct : Distinct doc.edges) where
  pub remove_node-Fewer :
      (p : RemoveNode) → apply_remove_node doc p ≡ ok (d, i) → Fewer d.edges doc.edges
  unfolding apply_remove_node
  remove_node-Fewer p h =
      let gone = keep (touches p.id) (values doc.edges) in
      let e : d.edges ≡ delete_edges gone doc.edges = ground arith in
      rw e (delete_edges-Fewer gone doc.edges distinct)

  pub remove_edge-Fewer :
      (id : String) → apply_remove_edge doc id ≡ ok (d, i) → Fewer d.edges doc.edges
  unfolding apply_remove_edge
  remove_edge-Fewer id h =
      let e : d.edges ≡ delete id doc.edges = ground arith in
      rw e
        (record { distinct = Distinct-delete id doc.edges distinct; sub = Sub-delete id doc.edges })

  pub ungroup-Fewer : (p : Ungroup) → apply_ungroup doc p ≡ ok (d, i) → Fewer d.edges doc.edges
  unfolding apply_ungroup untouched
  ungroup-Fewer p h = elim (Bool-cases (or_default p.keep_children true)) [
    | inl kept ↦ let e : d.edges ≡ doc.edges = ground arith in Fewer-refl _ _ e distinct
    | inr gone ↦
        let e : d.edges ≡ untouched p.group_id doc.edges = ground arith in
        rw e (record {
          distinct = Distinct-keep_if _ doc.edges distinct;
          sub = Sub-keep_if _ doc.edges distinct;
        })
  ]

  -- What `add_edge` did: some edges made room for the new one, which closes no cycle.
  pub record Connects (e : Edge) (actor : String) (now : ℕ) : Type 0 where
    pub room : List (String × Edge)
    pub kind : String
    pub fewer : Fewer room doc.edges
    pub checked : would_cycle (record doc { edges = room }) e.from.node_id e.to.node_id ≡ false
    pub stored : d.edges ≡ insert e.id (stored_edge e kind actor now) room

  room_for-Fewer : (e : Edge) (p : Port) → Fewer (room_for e p doc.edges) doc.edges
  unfolding drop_into
  room_for-Fewer e p = elim (Bool-cases p.multiple) [
    | inl many ↦ rw many (Fewer-refl _ _ refl distinct)
    | inr single ↦ rw single (record {
      distinct = Distinct-keep_if _ doc.edges distinct;
      sub = Sub-keep_if _ doc.edges distinct;
    })
  ]

  pub add_edge-Connects :
      (e : Edge) (actor : String) (now : ℕ)
      → apply_add_edge doc e actor now ≡ ok (d, i)
      → Connects e actor now
  unfolding apply_add_edge
  add_edge-Connects e actor now h = elim (Option-cases (find_node doc e.from.node_id)) [
    | inl x ↦ absurd (ground arith)
    | inr (from, found) ↦ elim (Option-cases (find_node doc e.to.node_id)) [
      | inl x ↦ absurd (ground arith)
      | inr (to, found') ↦ elim (Option-cases (find_port from.ports.outputs e.from.port_id)) [
        | inl x ↦ absurd (ground arith)
        | inr (out_port, o) ↦ elim (Option-cases (find_port to.ports.inputs e.to.port_id)) [
          | inl x ↦ absurd (ground arith)
          | inr (in_port, n) ↦ record {
            room = room_for e in_port doc.edges;
            kind = edge_kind e out_port;
            fewer = room_for-Fewer e in_port;
            checked = ground arith;
            stored = ground arith;
          }
        ]
      ]
    ]
  ]
