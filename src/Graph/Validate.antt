-- ===== src/Graph/Validate.antt =====
-- internal/graph/spec.go: `ValidateSpec`, the validation of a node's spec against its schema.
use ic.Prelude.{
  trim_space, String, len, Bool, true, false, ◌&&◌, ◌||◌, not, List, [], ◌∷◌, Option, none, some,
  ltb, if◌then◌else◌, same, any, concat,
}
use ic.Prelude.Int.{ℤ, pos, ltb_ℤ}
use ic.Prelude.Dict.{lookup, has}
use ic.Platform.Errors.{
  Result, ok, new_error, Code, DomainError, refuse, only_if, or_fail, ◌>>=◌, ◌>>◌,
}
use ic.Platform.Float.{Float64, not_finite}
use ic.Graph.Document.{Json, null, bool, float, number, text, array, object, Items, nil, cons, Spec}
use ic.Graph.Limits.{max_prompt_bytes, max_variants_per_node}
use ic.Graph.Ids.{valid_id}
use ic.Graph.Schema.{
  FieldKind, field_string, field_number, field_int, field_bool, field_strings, field_object,
  field_any, Schema, PluginSchemas, schema_for, invalid_spec,
}

unfoldable pub valid_capability_string : String → Bool
valid_capability_string c = any (same (trim_space c)) (
    "image.generate" ∷ "image.edit" ∷ "image.upscale" ∷ "video.generate" ∷ "text.generate"
    ∷ "text.tools" ∷ "audio.generate" ∷ "model.list" ∷ [])

-- errInvalidSpec, with `%q` as plain quotes.
abbrev about_type : String → String → DomainError
about_type t message = invalid_spec (concat t (concat ": " message))

abbrev quoted : String → String → String
quoted what k = concat what (concat " \"" (concat k "\""))

abbrev is_some : {A : Type 0} → Option A → Bool
is_some none = false
is_some (some a) = true

-- `cap, _ := raw.(string)` leaves "" where the value is no text.
abbrev pub text_or_empty : Option String → String
text_or_empty none = ""
text_or_empty (some s) = s

module _ {F : Type 0} ⦃fl : Float64 F⦄ where
  as_float : Json F → Option F
  as_float (float f) = some f
  as_float (number s) = fl.parse_float s
  as_float _ = none

  unfoldable pub as_int : Json F → Option ℤ
  as_int (float f) = if fl.is_whole f then some (fl.to_int f) else none
  as_int (number s) = fl.parse_int s
  as_int _ = none

  all_texts : Items F → Bool
  all_texts nil = true
  all_texts (cons (text s) rest) = all_texts rest
  all_texts (cons _ rest) = false

  abbrev is_finite_number : Option F → Bool
  is_finite_number none = false
  is_finite_number (some f) = not (not_finite f)

  -- Whether `checkField` returns nil.
  unfoldable pub field_fits : FieldKind → Json F → Bool
  unfolding as_float as_int all_texts
  field_fits field_string (text s) = true
  field_fits field_bool (bool b) = true
  field_fits field_number v = is_finite_number (as_float v)
  field_fits field_int v = is_some (as_int v)
  field_fits field_strings (array items) = all_texts items
  field_fits field_object (object fields) = true
  field_fits field_any v = true
  field_fits _ v = false

  -- A field by its text: `s, ok := v.(string)`.
  unfoldable pub text_of : Option (Json F) → Option String
  text_of (some (text s)) = some s
  text_of _ = none

  check_known : String → Schema → Spec F → Result (Unit {0})
  check_known t s [] = ok tt
  check_known t s ((k, v) ∷ rest) = do
    refuse (not (has k s.fields)) (about_type t (quoted "unknown field" k))
    check_known t s rest

  check_required : String → Spec F → List String → Result (Unit {0})
  check_required t spec [] = ok tt
  check_required t spec (r ∷ rest) = do
    refuse (not (has r spec)) (about_type t (quoted "missing required field" r))
    check_required t spec rest

  abbrev is_null : Json F → Bool
  is_null null = true
  is_null _ = false

  abbrev fits_field : Option FieldKind → Json F → Bool
  fits_field none v = false
  fits_field (some kind) v = field_fits kind v

  check_values : String → Schema → Spec F → Result (Unit {0})
  check_values t s [] = ok tt
  check_values t s ((k, v) ∷ rest) = do
    refuse (is_null v) (about_type t (concat (quoted "field" k) " must not be null; use unset"))
    refuse (not (fits_field (lookup k s.fields) v))
        (about_type t (concat (quoted "field" k) ": expect another type"))
    check_values t s rest

  check_prompt : Spec F → Result (Unit {0})
  check_prompt spec = elim (text_of (lookup "text" spec)) [
    | none ↦ ok tt
    | some s ↦
        refuse (ltb max_prompt_bytes (len s))
          (new_error 413 Code.payload_too_large "prompt text exceeds limit")
  ]

  check_media : String → Spec F → Result (Unit {0})
  check_media t spec = elim (text_of (lookup "assetId" spec)) [
    | none ↦ ok tt
    | some id ↦
        refuse (not (same id "") && not (valid_id id)) (about_type t "assetId is not a valid id")
  ]

  check_output_count : String → Spec F → Result (Unit {0})
  check_output_count t spec = elim (lookup "outputCount" spec) [
    | none ↦ ok tt
    | some raw ↦ do
      n ← or_fail (as_int raw) (about_type t "outputCount must be integer")
      refuse (ltb_ℤ n (pos 1) || ltb_ℤ (pos max_variants_per_node) n)
          (invalid_spec "outputCount out of range")
  ]

  check_capability : String → Spec F → Result (Unit {0})
  check_capability t spec = elim (lookup "capability" spec) [
    | none ↦ ok tt
    | some raw ↦
        let cap = text_or_empty (text_of (some raw)) in
        refuse (not (valid_capability_string cap)) (about_type t (concat "unknown capability " cap))
  ]

  check_by_type : String → Spec F → Result (Unit {0})
  unfolding check_prompt check_media check_output_count check_capability
  check_by_type t spec = do
    only_if (same t "prompt") (check_prompt spec)
    only_if (same t "image" || same t "video" || same t "audio") (check_media t spec)
    only_if (same t "generation") (check_output_count t spec >> check_capability t spec)

  unfoldable pub validate_spec : PluginSchemas → String → Spec F → Result (Unit {0})
  unfolding check_known check_required check_values check_by_type
  validate_spec plugins t spec = do
    s ← or_fail (schema_for plugins t) (about_type t "unknown node type")
    check_known t s spec
    check_required t spec s.required
    check_values t s spec
    check_by_type t spec
