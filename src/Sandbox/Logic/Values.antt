-- ===== src/Sandbox/Logic/Values.antt =====
-- internal/sandbox: values.go and the operators of eval.go under the logic of executions.
use ic.Prelude.{ℕ, zero, suc, String, Bool, Option, none, some, same}
use ic.Prelude.Int.{ℤ, pos_part}
use ic.Platform.Float.{Float64, ◌/f◌, not_finite}
use ic.Graph.Document.{
  Json, null, bool, float, number, text, array, object, Items, nil, cons, Fields, end, field,
}
use ic.Sandbox.Limits.{ErrorCode}
use ic.Sandbox.Syntax.{UnaryOp, BinaryOp}
use ic.Sandbox.Values.{
  Host, Answer, value, fails, is_proto_key, field_at, item_at, set_field, member_value, member_of,
  to_number, to_index, is_zero,
}
use ic.Sandbox.Operators.{
  index_value, unary_value, binary_value, item_of, key_of, char_of, with_number, both, plus_values,
  compare_values, compare_texts, power_of, nonzero, is_large, finite_power,
}
use ic.Sandbox.Machine.{Setting}
use ic.Sandbox.HostFuncs.{take_items, drop_items, slice_items}
use ic.Sandbox.Logic.Defs.{Logic, Fits, EachItem, EachField, if-all}

module _ {F : Type 0} {s : Setting F} (L : Logic F s) where
  field_at-Good :
      (k : String) (fields : Fields F) → EachField L.Key L.Good fields → L.Good (field_at k fields)
  unfolding field_at
  field_at-Good k end g = L.null_good
  field_at-Good k (field j v rest) (key, g, gs) =
      if-all L.Good (same j k) v (field_at k rest) g (field_at-Good k rest gs)

  item_at-Good : (n : ℕ) (items : Items F) → EachItem L.Good items → L.Good (item_at n items)
  unfolding item_at
  item_at-Good n nil g = L.null_good
  item_at-Good zero (cons v rest) (g, gs) = g
  item_at-Good (suc n) (cons v rest) (g, gs) = item_at-Good n rest gs

  pub set_field-Good :
      (k : String) (v : Json F) (fields : Fields F)
      → L.Key k
      → L.Good v
      → EachField L.Key L.Good fields
      → EachField L.Key L.Good (set_field k v fields)
  unfolding set_field
  set_field-Good k v end key g gs = (key, g, tt)
  set_field-Good k v (field j w rest) key g (key', g', gs) =
      if-all (EachField L.Key L.Good) (same j k) (field k v rest) (field j w (set_field k v rest))
        (key, g, gs) (key', g', set_field-Good k v rest key g gs)

  drop_items-Good :
      (n : ℕ) (items : Items F) → EachItem L.Good items → EachItem L.Good (drop_items n items)
  unfolding drop_items
  drop_items-Good zero items g = g
  drop_items-Good (suc n) nil g = g
  drop_items-Good (suc n) (cons v rest) (g, gs) = drop_items-Good n rest gs

  take_items-Good :
      (n : ℕ) (items : Items F) → EachItem L.Good items → EachItem L.Good (take_items n items)
  unfolding take_items
  take_items-Good zero items g = tt
  take_items-Good (suc n) nil g = g
  take_items-Good (suc n) (cons v rest) (g, gs) = (g, take_items-Good n rest gs)

  pub slice_items-Good :
      (range : ℤ × ℤ) (items : Items F)
      → EachItem L.Good items
      → EachItem L.Good (slice_items range items)
  slice_items-Good (start, stop) items g =
      take_items-Good _ (drop_items (pos_part start) items)
        (drop_items-Good (pos_part start) items g)

module _ {F : Type 0} ⦃fl : Float64 F⦄ ⦃host : Host F⦄ {s : Setting F} (L : Logic F s) where
  member_of-Good : (v : Json F) (name : String) → L.Good v → Fits L L.Good (member_of v name)
  member_of-Good (object fields) name g = field_at-Good L name fields (L.fields_good fields g)
  member_of-Good (array items) name g =
      if-all (Fits L L.Good) (same name "length") _ _ (L.float_good _) (L.faulted _)
  member_of-Good (text t) name g =
      if-all (Fits L L.Good) (same name "length") _ _ (L.float_good _) (L.faulted _)
  member_of-Good null name g = L.null_good
  member_of-Good (bool b) name g = L.faulted _
  member_of-Good (float f) name g = L.faulted _
  member_of-Good (number t) name g = L.faulted _

  pub member_value-Good :
      (v : Json F) (name : String) → L.Good v → Fits L L.Good (member_value v name)
  unfolding member_value
  member_value-Good v name g =
      if-all (Fits L L.Good) (is_proto_key name) _ _ (L.faulted _) (member_of-Good v name g)

  item_of-Good :
      (items : Items F) (i : Option ℤ) → EachItem L.Good items → Fits L L.Good (item_of items i)
  item_of-Good items none g = L.faulted _
  item_of-Good items (some n) g =
      if-all L.Good _ null (item_at (pos_part n) items) L.null_good
        (item_at-Good L (pos_part n) items g)

  key_of-Good :
      (fields : Fields F) (i : Json F)
      → EachField L.Key L.Good fields
      → Fits L L.Good (key_of fields i)
  key_of-Good fields (text key) g =
      if-all (Fits L L.Good) (is_proto_key key) _ _ (L.faulted _) (field_at-Good L key fields g)
  key_of-Good fields null g = L.faulted _
  key_of-Good fields (bool b) g = L.faulted _
  key_of-Good fields (float f) g = L.faulted _
  key_of-Good fields (number t) g = L.faulted _
  key_of-Good fields (array items) g = L.faulted _
  key_of-Good fields (object fs) g = L.faulted _

  char_of-Good : (t : String) (i : Option ℤ) → L.Good (char_of t i)
  char_of-Good t none = L.null_good
  char_of-Good t (some n) = if-all L.Good _ null _ L.null_good (L.text_good _)

  pub index_value-Good : (v i : Json F) → L.Good v → Fits L L.Good (index_value v i)
  unfolding index_value
  index_value-Good (array items) i g = item_of-Good items (to_index i) (L.items_good items g)
  index_value-Good (object fields) i g = key_of-Good fields i (L.fields_good fields g)
  index_value-Good (text t) i g = char_of-Good t (to_index i)
  index_value-Good null i g = L.null_good
  index_value-Good (bool b) i g = L.null_good
  index_value-Good (float f) i g = L.null_good
  index_value-Good (number t) i g = L.null_good

  with_number-Good :
      (n : Option F) (next : F → Answer (Json F))
      → ((f : F) → Fits L L.Good (next f))
      → Fits L L.Good (with_number n next)
  with_number-Good none next h = L.faulted _
  with_number-Good (some f) next h = h f

  pub unary_value-Good : (op : UnaryOp) (v : Json F) → Fits L L.Good (unary_value op v)
  unfolding unary_value
  unary_value-Good UnaryOp.bang v = L.bool_good _
  unary_value-Good UnaryOp.neg v = with_number-Good (to_number v) _ (λ f. L.float_good _)
  unary_value-Good UnaryOp.plus v = with_number-Good (to_number v) _ (λ f. L.float_good _)
  unary_value-Good UnaryOp.typeof v = L.text_good _

  both-Good :
      (l r : Json F) (next : F → F → Answer (Json F))
      → ((a b : F) → Fits L L.Good (next a b))
      → Fits L L.Good (both l r next)
  both-Good l r next h =
      with_number-Good (to_number l) _ (λ a. with_number-Good (to_number r) (next a) (λ b. h a b))

  plus_values-Good : (l r : Json F) → Fits L L.Good (plus_values l r)
  plus_values-Good (text t) r = L.text_good _
  plus_values-Good null r = both-Good null r _ (λ a b. L.float_good _)
  plus_values-Good (bool v) r = both-Good (bool v) r _ (λ a b. L.float_good _)
  plus_values-Good (float v) r = both-Good (float v) r _ (λ a b. L.float_good _)
  plus_values-Good (number v) r = both-Good (number v) r _ (λ a b. L.float_good _)
  plus_values-Good (array v) r = both-Good (array v) r _ (λ a b. L.float_good _)
  plus_values-Good (object v) r = both-Good (object v) r _ (λ a b. L.float_good _)

  nonzero-Good : (a b : F) → Fits L L.Good (nonzero a b)
  nonzero-Good a b = if-all (Fits L L.Good) (is_zero a) _ _ (L.faulted _) (L.float_good _)

  power_of-Good : (a b : F) → Fits L L.Good (power_of a b)
  power_of-Good a b =
      if-all (Fits L L.Good) (is_large b) (fails ErrorCode.script_limit)
        (finite_power (host.pow a b)) (L.faulted _)
        (if-all (Fits L L.Good) (not_finite (host.pow a b)) (fails ErrorCode.script_runtime)
          (value (float (host.pow a b))) (L.faulted _) (L.float_good _))

  compare_texts-Good :
      (texts : String → String → Bool) (t : String) (r : Json F)
      → Fits L L.Good (compare_texts texts t r)
  compare_texts-Good texts t (text u) = L.bool_good _
  compare_texts-Good texts t null = L.faulted _
  compare_texts-Good texts t (bool v) = L.faulted _
  compare_texts-Good texts t (float v) = L.faulted _
  compare_texts-Good texts t (number v) = L.faulted _
  compare_texts-Good texts t (array v) = L.faulted _
  compare_texts-Good texts t (object v) = L.faulted _

  compare_values-Good :
      (texts : String → String → Bool) (floats : F → F → Bool) (l r : Json F)
      → Fits L L.Good (compare_values texts floats l r)
  compare_values-Good texts floats (text t) r = compare_texts-Good texts t r
  compare_values-Good texts floats null r = both-Good null r _ (λ a b. L.bool_good _)
  compare_values-Good texts floats (bool v) r = both-Good (bool v) r _ (λ a b. L.bool_good _)
  compare_values-Good texts floats (float v) r = both-Good (float v) r _ (λ a b. L.bool_good _)
  compare_values-Good texts floats (number v) r = both-Good (number v) r _ (λ a b. L.bool_good _)
  compare_values-Good texts floats (array v) r = both-Good (array v) r _ (λ a b. L.bool_good _)
  compare_values-Good texts floats (object v) r = both-Good (object v) r _ (λ a b. L.bool_good _)

  pub binary_value-Good : (op : BinaryOp) (l r : Json F) → Fits L L.Good (binary_value op l r)
  unfolding binary_value
  binary_value-Good BinaryOp.add l r = plus_values-Good l r
  binary_value-Good BinaryOp.sub l r = both-Good l r _ (λ a b. L.float_good _)
  binary_value-Good BinaryOp.mul l r = both-Good l r _ (λ a b. L.float_good _)
  binary_value-Good BinaryOp.div l r = both-Good l r _ (λ a b. nonzero-Good b (a /f b))
  binary_value-Good BinaryOp.mod_op l r = both-Good l r _ (λ a b. nonzero-Good b (host.modulo a b))
  binary_value-Good BinaryOp.power l r = both-Good l r power_of power_of-Good
  binary_value-Good BinaryOp.equal l r = L.bool_good _
  binary_value-Good BinaryOp.unequal l r = L.bool_good _
  binary_value-Good BinaryOp.lt l r = compare_values-Good _ _ l r
  binary_value-Good BinaryOp.gt l r = compare_values-Good _ _ l r
  binary_value-Good BinaryOp.le l r = compare_values-Good _ _ l r
  binary_value-Good BinaryOp.ge l r = compare_values-Good _ _ l r
  binary_value-Good BinaryOp.coalesce l r = L.faulted _
  binary_value-Good BinaryOp.or l r = L.faulted _
  binary_value-Good BinaryOp.and l r = L.faulted _
