-- ===== src/Graph/Apply/Config.antt =====
-- internal/graph/op_apply.go: set_spec with its metadata channel, and set_state.
use ic.Prelude.{
  String, len, Bool, true, false, ◌&&◌, ◌||◌, not, List, [], ◌∷◌, Option, none, some, ltb, keep,
  length, if◌then◌else◌, same, contains,
}
use ic.Prelude.Dict.{lookup, insert, delete, has, keys}
use ic.Platform.Errors.{Result, ok, err, new_error, Code, refuse, or_fail, ◌>>=◌, ◌>>◌}
use ic.Platform.Float.{Float64}
use ic.Graph.Document.{
  Document, Node, Json, null, array, object, Items, nil, cons, Fields, end, field, Spec, find_node,
  put_node, valid_node_state,
}
use ic.Graph.Limits.{max_meta_keys, max_meta_key_len}
use ic.Graph.Schema.{PluginSchemas, FieldKind, field_string, schema_for, invalid_spec}
use ic.Graph.Validate.{validate_spec}
use ic.Graph.Operation.{set_spec, set_state, SetSpec, SetState, one}
use ic.Graph.Apply.Nodes.{Effect, node_not_found}

abbrev pub is_empty : {A : Type 0} → List A → Bool
is_empty [] = true
is_empty (x ∷ xs) = false

unfoldable pub schema_field : PluginSchemas → String → String → Option FieldKind
schema_field plugins t k = elim (schema_for plugins t) [
  | none ↦ none
  | some s ↦ if same t "prompt" && same k "text" then some field_string else lookup k s.fields
]

abbrev pub is_some : {A : Type 0} → Option A → Bool
is_some none = false
is_some (some a) = true

-- `normalizeJSONNumbers` returns every number as it is, and rebuilds maps and arrays.
unfoldable mutual
  pub normalize_json_numbers : {F : Type 0} → Json F → Json F
  normalize_json_numbers (array items) = array (normalize_items items)
  normalize_json_numbers (object fields) = object (normalize_fields fields)
  normalize_json_numbers v = v

  pub normalize_items : {F : Type 0} → Items F → Items F
  normalize_items nil = nil
  normalize_items (cons v items) = cons (normalize_json_numbers v) (normalize_items items)

  pub normalize_fields : {F : Type 0} → Fields F → Fields F
  normalize_fields end = end
  normalize_fields (field k v fields) = field k (normalize_json_numbers v) (normalize_fields fields)

abbrev is_proto : String → Bool
is_proto k = same k "__proto__" || same k "constructor" || same k "prototype"

unfoldable pub validate_meta_key : String → Result (Unit {0})
validate_meta_key k = do
  refuse (same k "") (invalid_spec "meta key must not be empty")
  refuse (ltb max_meta_key_len (len k)) (invalid_spec "meta key too long")
  refuse (is_proto k) (invalid_spec "meta key must not be a prototype chain key")

abbrev is_invalid_spec : Code → Bool
is_invalid_spec Code.invalid_spec = true
is_invalid_spec _ = false

-- A missing required field is tolerated; any other error is returned.
unfoldable pub tolerate : Result (Unit {0}) → Result (Unit {0})
tolerate (ok u) = ok u
tolerate (err e) =
    if not (is_invalid_spec e.code) || not (contains e.message "missing required field")
    then err e
    else ok tt

abbrev or_keep : {A : Type 0} → Option A → Option A → Option A
or_keep none old = old
or_keep (some a) old = some a

module _ {F : Type 0} ⦃fl : Float64 F⦄ where
  unfoldable pub unset_fields : PluginSchemas → String → List String → Spec F → Result (Spec F)
  unset_fields plugins t [] next = ok next
  unset_fields plugins t (k ∷ ks) next = do
    refuse (not (is_some (schema_field plugins t k))) (invalid_spec "unset unknown field")
    unset_fields plugins t ks (delete k next)

  unfoldable pub patch_fields : PluginSchemas → String → Spec F → Spec F → Result (Spec F)
  patch_fields plugins t [] next = ok next
  patch_fields plugins t ((k, v) ∷ patch) next = do
    refuse (not (is_some (schema_field plugins t k))) (invalid_spec "unknown field")
    patch_fields plugins t patch (insert k (normalize_json_numbers v) next)

  unfoldable pub unset_meta : List String → Spec F → Result (Spec F)
  unset_meta [] next = ok next
  unset_meta (k ∷ ks) next = do validate_meta_key k; unset_meta ks (delete k next)

  abbrev is_null : Json F → Bool
  is_null null = true
  is_null _ = false

  unfoldable pub patch_meta : Spec F → Spec F → Result (Spec F)
  patch_meta [] next = ok next
  patch_meta ((k, v) ∷ meta) next = do
    validate_meta_key k
    refuse (is_null v) (invalid_spec "meta value must not be null; use metaUnset")
    patch_meta meta (insert k (normalize_json_numbers v) next)

  -- The keys of `ks` that stand in the map when their turn comes: each is deleted once.
  unfoldable pub removed_keys : List String → Spec F → List String
  removed_keys [] next = []
  removed_keys (k ∷ ks) next =
      let rest = removed_keys ks (delete k next) in if has k next then k ∷ rest else rest

  unfoldable pub apply_set_meta : Document F → Node F → SetSpec F → Effect F
  apply_set_meta doc n p = do
    kept ← unset_meta p.meta_unset n.meta
    next ← patch_meta p.meta kept
    refuse (ltb max_meta_keys (length next))
        (new_error 413 Code.payload_too_large "meta has too many keys")
    ok (
      put_node doc p.id (record n { meta = next }),
      one (
          set_spec (record {
            id = p.id;
            patch = [];
            unset = [];
            meta = n.meta;
            meta_unset = removed_keys p.meta_unset n.meta;
          })),
    )

  unfoldable pub apply_set_spec : PluginSchemas → Document F → SetSpec F → Effect F
  unfolding apply_set_meta
  apply_set_spec plugins doc p = do
    n ← or_fail (find_node doc p.id) node_not_found
    let has_spec_change = not (is_empty p.patch) || not (is_empty p.unset)
    let has_meta_change = not (is_empty p.meta) || not (is_empty p.meta_unset)
    refuse (not has_spec_change && not has_meta_change)
        (invalid_spec "set_spec requires patch/unset or meta/metaUnset")
    if has_meta_change then apply_set_meta doc n p else (do
      kept ← unset_fields plugins n.type p.unset n.spec
      next ← patch_fields plugins n.type p.patch kept
      tolerate (validate_spec plugins n.type next)
      ok (
        put_node doc p.id (record n { spec = next }),
        one (
            set_spec (record {
              id = p.id;
              patch = n.spec;
              unset = keep (λ k. not (has k next)) (keys n.spec);
              meta = [];
              meta_unset = [];
            })),
      ))

  abbrev pub with_state : Node F → SetState → Node F
  with_state n p =
      let idle = same p.state "idle" in
      record n {
        state = p.state;
        result = if idle then none else or_keep p.result n.result;
        error = if idle then none else or_keep p.error n.error;
      }

  unfoldable pub apply_set_state : Document F → SetState → Effect F
  apply_set_state doc p = do
    n ← or_fail (find_node doc p.id) node_not_found
    refuse (not (valid_node_state p.state)) (invalid_spec "invalid node state")
    ok (
      put_node doc p.id (with_state n p),
      one (set_state (record { id = p.id; state = n.state; result = n.result; error = n.error })),
    )
