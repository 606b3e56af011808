-- ===== src/Graph/Acyclic/Steps.antt =====
-- The edges of a canvas under a batch of operations (internal/graph/op.go, `Apply`).
use ic.Prelude.{ℕ, ◌+◌, ◌≡◌, refl, ◌⊎◌, inl, inr, String, List, [], ◌∷◌, arith}
use ic.Prelude.Dict.{Distinct, Distinct-insert}
use ic.Platform.Errors.{ok, >>=-eq-ok, Result-cases}
use ic.Platform.Float.{Float64}
use ic.Graph.Document.{Document, Edge}
use ic.Graph.Schema.{PluginSchemas}
use ic.Graph.Cycle.Correct.{would_cycle_iff}
use ic.Graph.Operation.{
  Op, RawOp, Inverse, add_node, remove_node, move_node, resize_node, set_title, set_spec, set_state,
  add_edge, remove_edge, group, ungroup, set_viewport, set_settings, set_parent,
}
use ic.Graph.Apply.Edges.{stored_edge}
use ic.Graph.Apply.Dispatch.{apply_one, apply_all, apply, decode_op, ApplyResult}
use ic.Graph.Acyclic.Paths.{IsAcyclic, IsAcyclic-mono, IsAcyclic-insert, Ascends-of_Reaches}
use ic.Graph.Acyclic.Effects.{
  edges-add_node, edges-move_node, edges-resize_node, edges-set_title, edges-set_spec,
  edges-set_state, edges-set_parent, edges-set_viewport, edges-set_settings, edges-group, Fewer,
  Connects, remove_node-Fewer, remove_edge-Fewer, ungroup-Fewer, add_edge-Connects,
}

-- The edges are a map, and form no cycle.
pub record IsSound (edges : List (String × Edge)) : Type 0 where
  pub distinct : Distinct edges
  pub acyclic : IsAcyclic edges

IsSound-eq : (m n : List (String × Edge)) → m ≡ n → IsSound n → IsSound m
IsSound-eq m n e s = rw e s

IsSound-Fewer : (m n : List (String × Edge)) → Fewer m n → IsSound n → IsSound m
IsSound-Fewer m n f s = record {
  distinct = f.distinct;
  acyclic = IsAcyclic-mono m n f.sub s.acyclic;
}

module _ {F : Type 0} ⦃fl : Float64 F⦄ (plugins : PluginSchemas) (actor : String) (now : ℕ) where
  IsSound-Connects :
      (doc d : Document F) (i : Inverse F) (s : IsSound doc.edges) (e : Edge)
      → Connects doc d i s.distinct e actor now
      → IsSound d.edges
  IsSound-Connects doc d i s e c =
      let kept = IsSound-Fewer c.room doc.edges c.fewer s in
      let cleared : Document F = record doc { edges = c.room } in
      rw c.stored (record {
        distinct = Distinct-insert e.id (stored_edge e c.kind actor now) c.room kept.distinct;
        acyclic = IsAcyclic-insert c.room e.id (stored_edge e c.kind actor now) kept.acyclic (λ r.
            let hit =
              (would_cycle_iff cleared e.from.node_id e.to.node_id).1
                (Ascends-of_Reaches cleared r) in
            cc (c.checked, hit));
      })

  apply_one-IsSound :
      (doc d : Document F) (i : Inverse F) (op : Op F)
      → apply_one plugins actor now doc op ≡ ok (d, i)
      → IsSound doc.edges
      → IsSound d.edges
  unfolding apply_one
  apply_one-IsSound doc d i (add_node p) h s = IsSound-eq _ _ (edges-add_node plugins doc d i p h) s
  apply_one-IsSound doc d i (remove_node p) h s =
      IsSound-Fewer _ _ (remove_node-Fewer doc d i s.distinct p h) s
  apply_one-IsSound doc d i (move_node p) h s =
      IsSound-eq _ _ (edges-move_node plugins doc d i p h) s
  apply_one-IsSound doc d i (resize_node p) h s =
      IsSound-eq _ _ (edges-resize_node plugins doc d i p h) s
  apply_one-IsSound doc d i (set_title p) h s =
      IsSound-eq _ _ (edges-set_title plugins doc d i p h) s
  apply_one-IsSound doc d i (set_spec p) h s = IsSound-eq _ _ (edges-set_spec plugins doc d i p h) s
  apply_one-IsSound doc d i (set_state p) h s =
      IsSound-eq _ _ (edges-set_state plugins doc d i p h) s
  apply_one-IsSound doc d i (add_edge e) h s =
      IsSound-Connects doc d i s e (add_edge-Connects doc d i s.distinct e actor now h)
  apply_one-IsSound doc d i (remove_edge id) h s =
      IsSound-Fewer _ _ (remove_edge-Fewer doc d i s.distinct id h) s
  apply_one-IsSound doc d i (group p) h s = IsSound-eq _ _ (edges-group doc d i p h) s
  apply_one-IsSound doc d i (ungroup p) h s =
      IsSound-Fewer _ _ (ungroup-Fewer doc d i s.distinct p h) s
  apply_one-IsSound doc d i (set_viewport v) h s =
      IsSound-eq _ _ (edges-set_viewport plugins doc d i v h) s
  apply_one-IsSound doc d i (set_settings m) h s =
      IsSound-eq _ _ (edges-set_settings plugins doc d i m h) s
  apply_one-IsSound doc d i (set_parent p) h s =
      IsSound-eq _ _ (edges-set_parent plugins doc d i p h) s

  -- What a successful loop of `Apply` did with its first operation.
  pub apply_all-cons :
      (doc d : Document F) (is : List (Inverse F)) (raw : RawOp F) (raws : List (RawOp F))
      → apply_all plugins actor now doc (raw ∷ raws) ≡ ok (d, is)
      → (op : Op F) × (m : Document F) × (i : Inverse F) × (js : List (Inverse F)) × (decode_op raw
          ≡ ok op)
        × (apply_one plugins actor now doc op ≡ ok (m, i))
        × (apply_all plugins actor now m raws ≡ ok (d, js))
        × (is ≡ i ∷ js)
  unfolding apply_all
  apply_all-cons doc d is raw raws h =
      let (op, decoded, h1) = >>=-eq-ok (decode_op raw) _ h in
      let (r, done, h2) = >>=-eq-ok (apply_one plugins actor now doc op) _ h1 in
      let (rest, later, h3) = >>=-eq-ok (apply_all plugins actor now r.0 raws) _ h2 in
      (op, r.0, r.1, rest.1, decoded, done, ground arith, ground arith)

  apply_all-IsSound :
      (doc d : Document F) (is : List (Inverse F)) (raws : List (RawOp F))
      → apply_all plugins actor now doc raws ≡ ok (d, is)
      → IsSound doc.edges
      → IsSound d.edges
  apply_all-IsSound doc d is [] h s =
      let e : d.edges ≡ doc.edges = unfold apply_all in ground arith in IsSound-eq _ _ e s
  apply_all-IsSound doc d is (raw ∷ raws) h s =
      let (op, m, i, js, _, done, later, _) = apply_all-cons doc d is raw raws h in
      apply_all-IsSound m d js raws later (apply_one-IsSound doc m i op done s)

module _ {F : Type 0} ⦃fl : Float64 F⦄ (plugins : PluginSchemas) where
  -- A successful batch: an empty one changes nothing, and any other is the loop with a new version.
  pub apply_cases :
      (doc d : Document F) (raws : List (RawOp F)) (actor : String) (now : ℕ) (r : ApplyResult F)
      → apply plugins doc raws actor now ≡ ok (r, d)
      → (raws ≡ []) × (d ≡ doc)
        ⊎ ((m : Document F) × (is : List (Inverse F)) × (apply_all plugins actor now doc raws
              ≡ ok (m, is))
            × (d ≡ record m { version = doc.version + 1; updated_at = now }))
  unfolding apply
  apply_cases doc d [] actor now r h = inl (refl, ground arith)
  apply_cases doc d (raw ∷ raws) actor now r h =
      elim (Result-cases (apply_all plugins actor now doc (raw ∷ raws))) [
        | inl (next, done) ↦ inr (next.0, next.1, done, ground arith)
        | inr (e, failed) ↦ absurd (ground arith)
      ]

  -- If the edges of a canvas are a map without a cycle, that is so after every batch that is
  -- accepted.
  pub apply-IsSound :
      (doc d : Document F) (raws : List (RawOp F)) (actor : String) (now : ℕ) (r : ApplyResult F)
      → IsSound doc.edges
      → apply plugins doc raws actor now ≡ ok (r, d)
      → IsSound d.edges
  apply-IsSound doc d raws actor now r s h = elim (apply_cases doc d raws actor now r h) [
    | inl (_, e) ↦ rw e s
    | inr (m, is, done, e) ↦ rw e (apply_all-IsSound plugins actor now doc m is raws done s)
  ]
