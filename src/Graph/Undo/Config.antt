-- ===== src/Graph/Undo/Config.antt =====
-- The fields that set_spec and its reverse write (internal/graph/op_apply.go, `applySetSpec`).
use ic.Prelude.{
  ◌≡◌, refl, String, Bool, true, List, [], ◌∷◌, some, arith, same, same_iff, Option-cases,
  Bool-cases, inl, inr, not, ◌||◌, In, keep, In-keep,
}
use ic.Prelude.Dict.{
  lookup, insert, delete, has, keys, lookup-insert, lookup-delete, lookup_of_In-keys,
}
use ic.Platform.Errors.{ok, Result-cases}
use ic.Platform.Float.{Float64}
use ic.Graph.Document.{Document, Node, Json, Spec, find_node}
use ic.Graph.Schema.{PluginSchemas}
use ic.Graph.Validate.{validate_spec}
use ic.Graph.Operation.{Inverse, one, SetSpec, set_spec}
use ic.Graph.Apply.Config.{
  apply_set_spec, unset_meta, patch_meta, unset_fields, patch_fields, is_empty, tolerate,
  normalize_json_numbers,
}

module _ {F : Type 0} ⦃fl : Float64 F⦄ where
  -- A field has a value.
  abbrev pub HasField : String → Spec F → Type 0
  HasField k spec = (v : Json F) × (lookup k spec ≡ some v)

  set-patch_fields :
      (plugins : PluginSchemas) (t k : String) (patch spec next : Spec F)
      → patch_fields plugins t patch spec ≡ ok next
      → HasField k spec
      → HasField k next
  unfolding patch_fields
  set-patch_fields plugins t k [] spec next h (v, e) = (v, ground arith)
  set-patch_fields plugins t k ((j, w) ∷ patch) spec next h (v, e) =
      set-patch_fields plugins t k patch (insert j (normalize_json_numbers w) spec) next
        (ground arith)
        (elim (Bool-cases (same j k)) [
          | inl hit ↦ (
            normalize_json_numbers w,
            ground (arith, lookup-insert j k (normalize_json_numbers w) spec),
          )
          | inr miss ↦ (v, ground (arith, lookup-insert j k (normalize_json_numbers w) spec))
        ])

  set-unset_fields :
      (plugins : PluginSchemas) (t k : String) (ks : List String) (spec next : Spec F)
      → unset_fields plugins t ks spec ≡ ok next
      → (In k ks → ⊥)
      → HasField k spec
      → HasField k next
  unfolding unset_fields
  set-unset_fields plugins t k [] spec next h out (v, e) = (v, ground arith)
  set-unset_fields plugins t k (j ∷ ks) spec next h out (v, e) =
      set-unset_fields plugins t k ks (delete j spec) next (ground arith) (λ m. out (inr m))
        (
          v,
          elim (Bool-cases (same j k)) [
            | inl hit ↦ absurd (out (inl (ground (arith, same_iff j k))))
            | inr miss ↦ ground (arith, lookup-delete j k spec)
          ],
        )

  -- The node `id` has a value for the field `k` of its spec.
  abbrev pub NodeHas : Document F → String → String → Type 0
  NodeHas doc id k = (n : Node F) × (find_node doc id ≡ some n) × HasField k n.spec

  -- What `set_spec` wrote: by the metadata channel the spec stays, by the other the fields are unset
  -- and then patched.
  pub data SpecEffect (plugins : PluginSchemas) (p : SetSpec F) (n m : Node F) (i : Inverse F)
      : Type 0 where
    by_meta : m.spec ≡ n.spec → SpecEffect plugins p n m i
    by_spec :
        (kept : Spec F)
        → unset_fields plugins n.type p.unset n.spec ≡ ok kept
        → patch_fields plugins n.type p.patch kept ≡ ok m.spec
        → tolerate (validate_spec plugins n.type m.spec) ≡ ok tt
        → i
          ≡ one (
              set_spec (record {
                id = p.id;
                patch = n.spec;
                unset = keep (λ k. not (has k m.spec)) (keys n.spec);
                meta = [];
                meta_unset = [];
              }))
        → SpecEffect plugins p n m i

  abbrev meta_channel : SetSpec F → Bool
  meta_channel p = not (is_empty p.meta) || not (is_empty p.meta_unset)

  pub set_spec_parts :
      (plugins : PluginSchemas) (doc d : Document F) (i : Inverse F) (p : SetSpec F)
      → apply_set_spec plugins doc p ≡ ok (d, i)
      → (n m : Node F) × (find_node doc p.id ≡ some n)
        × (find_node d p.id ≡ some m)
        × SpecEffect plugins p n m i
        × (meta_channel p ≡ true → m.spec ≡ n.spec)
  unfolding apply_set_spec
  set_spec_parts plugins doc d i p h = elim (Option-cases (find_node doc p.id)) [
    | inl gone ↦ absurd (ground arith)
    | inr (n, found) ↦ elim (Bool-cases (meta_channel p)) [
      | inl channel ↦ elim (Result-cases (unset_meta p.meta_unset n.meta)) [
        | inr (e, failed) ↦ absurd (ground arith)
        | inl (kept, done) ↦ elim (Result-cases (patch_meta p.meta kept)) [
          | inr (e, failed) ↦ absurd (ground arith)
          | inl (next, patched) ↦
              let m : Node F = record n { meta = next } in
              let e : d.nodes ≡ insert p.id m doc.nodes = ground arith in
              (
                n,
                m,
                found,
                rw e (ground (arith, lookup-insert p.id p.id m doc.nodes, same_iff p.id p.id)),
                by_meta refl,
                λ _. refl,
              )
        ]
      ]
      | inr channel ↦ elim (Result-cases (unset_fields plugins n.type p.unset n.spec)) [
        | inr (e, failed) ↦ absurd (ground arith)
        | inl (kept, done) ↦ elim (Result-cases (patch_fields plugins n.type p.patch kept)) [
          | inr (e, failed) ↦ absurd (ground arith)
          | inl (next, patched) ↦
              let m : Node F = record n { spec = next } in
              let e : d.nodes ≡ insert p.id m doc.nodes = ground arith in
              (
                n,
                m,
                found,
                rw e (ground (arith, lookup-insert p.id p.id m doc.nodes, same_iff p.id p.id)),
                by_spec kept done patched (ground arith) (ground arith),
                λ meta. absurd (ground arith),
              )
        ]
      ]
    ]
  ]

  -- A `set_spec` with metadata that is accepted leaves the spec as it was, whatever its patch.
  pub set_spec_drops_patch :
      (plugins : PluginSchemas) (doc d : Document F) (i : Inverse F) (p : SetSpec F)
      → meta_channel p ≡ true
      → apply_set_spec plugins doc p ≡ ok (d, i)
      → (n m : Node F) × (find_node doc p.id ≡ some n)
        × (find_node d p.id ≡ some m)
        × (m.spec ≡ n.spec)
  set_spec_drops_patch plugins doc d i p meta h =
      let (n, m, found, there, _, same_spec) = set_spec_parts plugins doc d i p h in
      (n, m, found, there, same_spec meta)

  -- A field that is not unset keeps a value.
  set_spec-keeps_field :
      (plugins : PluginSchemas) (d d' : Document F) (q : SetSpec F) (j : Inverse F) (k : String)
      → apply_set_spec plugins d q ≡ ok (d', j)
      → (In k q.unset → ⊥)
      → NodeHas d q.id k
      → NodeHas d' q.id k
  set_spec-keeps_field plugins d d' q j k h out (a, found_a, w) =
      let (n, m, found, there, effect, _) = set_spec_parts plugins d d' j q h in
      let same_node : a ≡ n = cc in
      let w' : HasField k n.spec = rw same_node at w in
      elim effect [
        | by_meta e ↦ (m, there, rw e w')
        | by_spec kept unset patched _ _ ↦ (
          m,
          there,
          set-patch_fields plugins n.type k q.patch kept m.spec patched
              (set-unset_fields plugins n.type k q.unset n.spec kept unset out w'),
        )
      ]

  -- Where a `set_spec` adds a field to the spec of a node, and its reverse operation is accepted on the
  -- result, the field is still there.
  pub set_spec_undo_keeps :
      (plugins : PluginSchemas) (doc d d' : Document F) (p q : SetSpec F) (j : Inverse F)
      (k : String)
      → apply_set_spec plugins doc p ≡ ok (d, one (set_spec q))
      → (NodeHas doc p.id k → ⊥)
      → NodeHas d p.id k
      → apply_set_spec plugins d q ≡ ok (d', j)
      → NodeHas d' p.id k
  set_spec_undo_keeps plugins doc d d' p q j k h new (a, found_a, w) undone =
      let (n, m, found, there, effect, _) = set_spec_parts plugins doc d (one (set_spec q)) p h in
      let same_node : a ≡ m = cc in
      let w' : HasField k m.spec = rw same_node at w in
      elim effect [
        | by_meta e ↦ absurd (new (n, found, rw (← e) w'))
        | by_spec kept unset patched _ e ↦
            let unset_of = keep (λ k. not (has k m.spec)) (keys n.spec) in
            let back : SetSpec F = record {
              id = p.id;
              patch = n.spec;
              unset = unset_of;
              meta = [];
              meta_unset = [];
            } in
            let q_is : q ≡ back = cc in
            let out : In k q.unset → ⊥ = λ i.
              let in_keys = (In-keep (λ k. not (has k m.spec)) k (keys n.spec)).0 (rw q_is at i) in
              new (n, found, lookup_of_In-keys k n.spec in_keys.0) in
            let id_is : q.id ≡ p.id = cc in
            rw (← id_is)
              (set_spec-keeps_field plugins d d' q j k undone out (a, rw id_is found_a, w))
      ]
