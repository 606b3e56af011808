-- ===== src/Sandbox/Values.antt =====
-- internal/sandbox/values.go: what the values of a script mean to its operators. A value is one of
-- encoding/json's; a text is UTF-8, of which Go's len counts the bytes.
use ic.Prelude.{
  ℕ, zero, suc, String, Bool, true, false, not, ◌&&◌, ◌||◌, List, [], ◌∷◌, Option, none, some, same,
  concat, if◌then◌else◌, any,
}
use ic.Prelude.Int.{ℤ, pos, negsuc}
use ic.Platform.Float.{Float64, ◌<f◌, not_finite}
use ic.Graph.Document.{
  Json, null, bool, float, number, text, array, object, Items, nil, cons, Fields, end, field,
}
use ic.Sandbox.Limits.{Fault, fault, ErrorCode}

-- The functions of Go's library that the sandbox calls, and Go's conversions between a text and its
-- runes.
pub record Host (F : Type 0) : Type 0 where
  -- fmt.Sprintf("%.0f", f) and fmt.Sprintf("%g", f)
  pub print_whole : F → String
  pub print_general : F → String
  -- json.Marshal, which refuses what is no finite number.
  pub marshal : Json F → Option String
  pub trim : String → String
  pub to_upper : String → String
  pub to_lower : String → String
  pub replace_all : String → String → String → String
  -- len([]rune(s)), string([]rune(s)[start:end]) and string(s[n])
  pub rune_count : String → ℕ
  pub rune_slice : String → ℕ → ℕ → String
  pub char_at : String → ℕ → String
  -- s < t
  pub text_less : String → String → Bool
  pub negate : F → F
  pub modulo : F → F → F
  pub pow : F → F → F

abbrev proto_keys : List String
proto_keys =
    "__proto__" ∷ "constructor" ∷ "prototype" ∷ "toString" ∷ "valueOf" ∷ "hasOwnProperty"
    ∷ "isPrototypeOf" ∷ "propertyIsEnumerable" ∷ "__defineGetter__" ∷ "__defineSetter__"
    ∷ "__lookupGetter__" ∷ "__lookupSetter__" ∷ "caller" ∷ "callee" ∷ "arguments" ∷ []

unfoldable pub is_proto_key : String → Bool
is_proto_key name = any (same name) proto_keys

module _ {F : Type 0} where
  unfoldable pub item_count : Items F → ℕ
  item_count nil = 0
  item_count (cons v rest) = suc (item_count rest)

  unfoldable pub field_count : Fields F → ℕ
  field_count end = 0
  field_count (field k v rest) = suc (field_count rest)

  -- m[k], which is nil where the key is missing.
  unfoldable pub field_at : String → Fields F → Json F
  field_at k end = null
  field_at k (field j v rest) = if same j k then v else field_at k rest

  unfoldable pub has_field : String → Fields F → Bool
  has_field k end = false
  has_field k (field j v rest) = same j k || has_field k rest

  -- m[k] = v
  unfoldable pub set_field : String → Json F → Fields F → Fields F
  set_field k v end = field k v end
  set_field k v (field j w rest) =
      if same j k then field k v rest else field j w (set_field k v rest)

  -- list[n], which is nil out of range.
  unfoldable pub item_at : ℕ → Items F → Json F
  item_at n nil = null
  item_at zero (cons v rest) = v
  item_at (suc n) (cons v rest) = item_at n rest

  abbrev pub is_null : Json F → Bool
  is_null null = true
  is_null _ = false

  abbrev pub type_name : Json F → String
  type_name null = "null"
  type_name (bool b) = "boolean"
  type_name (float f) = "number"
  type_name (text s) = "string"
  type_name (array items) = "array"
  type_name (object fields) = "object"
  type_name _ = "unknown"

module _ {F : Type 0} ⦃fl : Float64 F⦄ where
  -- a == b
  abbrev pub equal_floats : F → F → Bool
  equal_floats a b = not (fl.is_nan a || fl.is_nan b) && not (a <f b || b <f a)

  abbrev zero_float : F
  zero_float = fl.num (pos 0)

  abbrev pub is_zero : F → Bool
  is_zero f = equal_floats f zero_float

  unfoldable pub truthy : Json F → Bool
  truthy null = false
  truthy (bool b) = b
  truthy (float f) = not (is_zero f) && not (fl.is_nan f)
  truthy (text s) = not (same s "")
  truthy _ = true

  unfoldable pub to_number : Json F → Option F
  to_number (float f) = if not_finite f then none else some f
  to_number (bool b) = some (fl.num (if b then pos 1 else pos 0))
  to_number _ = none

  unfoldable pub to_index : Json F → Option ℤ
  to_index (float f) = if fl.is_whole f then some (fl.to_int f) else none
  to_index _ = none

  -- t == math.Trunc(t) && math.Abs(t) < 1e15
  abbrev prints_whole : F → Bool
  prints_whole f =
      fl.is_whole f && fl.num (negsuc 999999999999999) <f f && f <f fl.num (pos 1000000000000000)

  module _ ⦃host : Host F⦄ where
    -- `toString`, and the texts of a list joined with commas.
    unfoldable mutual
      pub to_text : Json F → String
      to_text null = ""
      to_text (text s) = s
      to_text (bool b) = if b then "true" else "false"
      to_text (float f) = if prints_whole f then host.print_whole f else host.print_general f
      to_text (array items) = to_texts items
      to_text (object fields) = elim (host.marshal (object fields)) [
        | none ↦ "[object]"
        | some s ↦ s
      ]
      to_text (number s) = s

      pub to_texts : Items F → String
      to_texts nil = ""
      to_texts (cons v nil) = to_text v
      to_texts (cons v (cons w rest)) = concat (to_text v) (concat "," (to_texts (cons w rest)))

    unfoldable pub length_of : Json F → ℕ
    length_of (text s) = host.rune_count s
    length_of (array items) = item_count items
    length_of (object fields) = field_count fields
    length_of _ = 0

    abbrev same_marshal : Json F → Json F → Bool
    same_marshal l r = elim (host.marshal l) [
      | none ↦ false
      | some s ↦ elim (host.marshal r) [ none ↦ false | some t ↦ same s t ]
    ]

    abbrev same_number : Json F → Json F → Bool
    same_number l r = elim (to_number l) [
      | none ↦ same_marshal l r
      | some a ↦ elim (to_number r) [ none ↦ same_marshal l r | some b ↦ equal_floats a b ]
    ]

    -- Where both are Booleans, both are numbers.
    unfoldable pub loose_equal : Json F → Json F → Bool
    loose_equal null r = is_null r
    loose_equal l null = false
    loose_equal (text s) (text t) = same s t
    loose_equal (text s) r = false
    loose_equal l r = same_number l r

-- What a pure operation gives: a value or a fault.
pub data Answer (A : Type 0) : Type 0 where
  value : A → Answer A
  failed : Fault → Answer A

abbrev pub fails : {A : Type 0} → ErrorCode → Answer A
fails c = failed (fault c)

module _ {F : Type 0} ⦃fl : Float64 F⦄ ⦃host : Host F⦄ where
  abbrev pub count : ℕ → Json F
  count n = float (fl.num (pos n))

  abbrev pub member_of : Json F → String → Answer (Json F)
  member_of (object fields) name = value (field_at name fields)
  member_of (array items) name =
      if same name "length"
      then value (count (item_count items))
      else fails ErrorCode.script_forbidden
  member_of (text s) name =
      if same name "length"
      then value (count (host.rune_count s))
      else fails ErrorCode.script_forbidden
  member_of null name = value null
  member_of v name = fails ErrorCode.script_runtime

  -- `member`
  unfoldable pub member_value : Json F → String → Answer (Json F)
  member_value obj name =
      if is_proto_key name then fails ErrorCode.script_forbidden else member_of obj name
