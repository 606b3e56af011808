-- ===== src/Sandbox/Operators.antt =====
-- internal/sandbox/eval.go: what the operators of a script make of their values.
use ic.Prelude.{ℕ, String, Bool, not, ◌&&◌, ◌||◌, Option, none, some, len, if◌then◌else◌, concat}
use ic.Prelude.Int.{ℤ, pos, negsuc, ltb_ℤ, pos_part}
use ic.Platform.Float.{Float64, ◌<f◌, ◌+f◌, ◌-f◌, ◌*f◌, ◌/f◌, not_finite}
use ic.Graph.Document.{Json, null, bool, float, text, array, object, Items, Fields}
use ic.Sandbox.Limits.{ErrorCode}
use ic.Sandbox.Syntax.{UnaryOp, BinaryOp}
use ic.Sandbox.Values.{
  Host, Answer, value, fails, to_text, to_number, to_index, truthy, type_name, loose_equal,
  item_count, item_at, field_at, is_proto_key, is_zero,
}

-- n < 0 || n >= size
abbrev outside_of : ℕ → ℤ → Bool
outside_of size n = ltb_ℤ n (pos 0) || not (ltb_ℤ n (pos size))

module _ {F : Type 0} where
  -- `indexSlice`
  abbrev pub item_of : Items F → Option ℤ → Answer (Json F)
  item_of items none = fails ErrorCode.script_runtime
  item_of items (some n) =
      value (if outside_of (item_count items) n then null else item_at (pos_part n) items)

  abbrev pub key_of : Fields F → Json F → Answer (Json F)
  key_of fields (text key) =
      if is_proto_key key then fails ErrorCode.script_forbidden else value (field_at key fields)
  key_of fields _ = fails ErrorCode.script_runtime

module _ {F : Type 0} ⦃fl : Float64 F⦄ ⦃host : Host F⦄ where
  abbrev pub char_of : String → Option ℤ → Json F
  char_of s none = null
  char_of s (some n) = if outside_of (len s) n then null else text (host.char_at s (pos_part n))

  unfoldable pub index_value : Json F → Json F → Answer (Json F)
  index_value (array items) i = item_of items (to_index i)
  index_value (object fields) i = key_of fields i
  index_value (text s) i = value (char_of s (to_index i))
  index_value _ i = value null

  abbrev pub with_number : Option F → (F → Answer (Json F)) → Answer (Json F)
  with_number none next = fails ErrorCode.script_runtime
  with_number (some f) next = next f

  unfoldable pub unary_value : UnaryOp → Json F → Answer (Json F)
  unary_value UnaryOp.bang v = value (bool (not (truthy v)))
  unary_value UnaryOp.neg v = with_number (to_number v) λ f. value (float (host.negate f))
  unary_value UnaryOp.plus v = with_number (to_number v) λ f. value (float f)
  unary_value UnaryOp.typeof v = value (text (type_name v))

  abbrev pub both : Json F → Json F → (F → F → Answer (Json F)) → Answer (Json F)
  both l r next = with_number (to_number l) λ lf. with_number (to_number r) λ rf. next lf rf

  -- math.Abs(rf) > 64
  abbrev pub is_large : F → Bool
  is_large rf = rf <f fl.num (negsuc 63) || fl.num (pos 64) <f rf

  abbrev pub finite_power : F → Answer (Json F)
  finite_power v = if not_finite v then fails ErrorCode.script_runtime else value (float v)

  abbrev pub power_of : F → F → Answer (Json F)
  power_of lf rf =
      if is_large rf then fails ErrorCode.script_limit else finite_power (host.pow lf rf)

  abbrev pub nonzero : F → F → Answer (Json F)
  nonzero rf result = if is_zero rf then fails ErrorCode.script_runtime else value (float result)

  abbrev pub plus_values : Json F → Json F → Answer (Json F)
  plus_values (text s) r = value (text (concat s (to_text r)))
  plus_values l r = both l r λ lf rf. value (float (lf +f rf))

  abbrev pub compare_texts : (String → String → Bool) → String → Json F → Answer (Json F)
  compare_texts test s (text t) = value (bool (test s t))
  compare_texts test s r = fails ErrorCode.script_runtime

  -- a <= b
  abbrev at_most : F → F → Bool
  at_most a b = not (fl.is_nan a || fl.is_nan b) && not (b <f a)

  -- `compare`, by the test of texts and the test of numbers.
  abbrev pub compare_values :
      (String → String → Bool) → (F → F → Bool) → Json F → Json F → Answer (Json F)
  compare_values texts floats (text s) r = compare_texts texts s r
  compare_values texts floats l r = both l r λ lf rf. value (bool (floats lf rf))

  -- The operators that need both values: + and `arith`, `looseEqual` and `compare`. The first three
  -- cases are of `lazy_value`.
  unfoldable pub binary_value : BinaryOp → Json F → Json F → Answer (Json F)
  binary_value BinaryOp.add l r = plus_values l r
  binary_value BinaryOp.sub l r = both l r λ lf rf. value (float (lf -f rf))
  binary_value BinaryOp.mul l r = both l r λ lf rf. value (float (lf *f rf))
  binary_value BinaryOp.div l r = both l r λ lf rf. nonzero rf (lf /f rf)
  binary_value BinaryOp.mod_op l r = both l r λ lf rf. nonzero rf (host.modulo lf rf)
  binary_value BinaryOp.power l r = both l r power_of
  binary_value BinaryOp.equal l r = value (bool (loose_equal l r))
  binary_value BinaryOp.unequal l r = value (bool (not (loose_equal l r)))
  binary_value BinaryOp.lt l r = compare_values host.text_less (λ a b. a <f b) l r
  binary_value BinaryOp.gt l r = compare_values (λ s t. host.text_less t s) (λ a b. b <f a) l r
  binary_value BinaryOp.le l r =
      compare_values (λ s t. not (host.text_less t s)) (λ a b. at_most a b) l r
  binary_value BinaryOp.ge l r =
      compare_values (λ s t. not (host.text_less s t)) (λ a b. at_most b a) l r
  binary_value _ l r = fails ErrorCode.script_runtime
