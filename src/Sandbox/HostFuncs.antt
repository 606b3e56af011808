-- ===== src/Sandbox/HostFuncs.antt =====
-- internal/sandbox/hostfuncs.go: the functions that a script may call. A function evaluates its
-- arguments itself, in the order of the source.
pub mod Slice
use ic.Prelude.{
  ℕ, zero, suc, ◌-◌, ◌+◌, String, Bool, true, false, ◌||◌, List, [], ◌∷◌, ◌++◌, Option, none, some,
  same, concat, len, ltb, leb, if◌then◌else◌, sort_strings,
}
use ic.Prelude.Int.{ℤ, pos, ltb_ℤ, pos_part}
use ic.Prelude.Dict.{lookup}
use ic.Platform.Float.{Float64}
use ic.Graph.Document.{
  Json, null, bool, float, number, text, array, object, Items, nil, cons, Fields, end, field,
}
use ic.Sandbox.Limits.{Fault, fault, unknown_call, ErrorCode, Limits}
use ic.Sandbox.Values.{
  Host, to_text, to_number, length_of, item_count, has_field, is_proto_key, is_null, count,
}
use ic.Sandbox.Machine.{M, Interp, Ran, gave, stuck, give, fail, ◌>>=◌, ◌>>◌, after_run}

-- The arguments of a call: how many there are, and the evaluation of each.
pub record Args (F : Type 0) : Type 0 where
  pub amount : ℕ
  pub eval_arg : ℕ → M F (Json F)

abbrev pub HostFunc : Type 0 → Type 0
HostFunc F = Args F → M F (Json F)

-- `arg`
unfoldable pub arg : {F : Type 0} → Args F → ℕ → M F (Json F)
arg a i = if leb a.amount i then give null else a.eval_arg i

-- `clampRange`
unfoldable pub clamp_range : ℤ → ℤ → ℤ → ℤ × ℤ
clamp_range n start stop =
    let low = if ltb_ℤ start (pos 0) then pos 0 else start in
    let from = if ltb_ℤ n low then n else low in
    let high = if ltb_ℤ stop from then from else stop in (from, if ltb_ℤ n high then n else high)

module _ {F : Type 0} where
  unfoldable pub drop_items : ℕ → Items F → Items F
  drop_items zero items = items
  drop_items (suc n) nil = nil
  drop_items (suc n) (cons v rest) = drop_items n rest

  unfoldable pub take_items : ℕ → Items F → Items F
  take_items zero items = nil
  take_items (suc n) nil = nil
  take_items (suc n) (cons v rest) = cons v (take_items n rest)

  abbrev pub slice_items : ℤ × ℤ → Items F → Items F
  slice_items (start, stop) items =
      take_items (pos_part stop - pos_part start) (drop_items (pos_part start) items)

-- `clampSlice`, from the range
abbrev pub slice_text : {F : Type 0} ⦃host : Host F⦄ → String → ℤ × ℤ → Json F
slice_text ⦃host⦄ t (start, stop) = text (host.rune_slice t (pos_part start) (pos_part stop))

-- len(t) > in.limit.MaxStringBytes
abbrev pub too_long : Limits → String → Bool
too_long limit t = ltb_ℤ limit.max_string_bytes (pos (len t))

module _ {F : Type 0} ⦃fl : Float64 F⦄ ⦃host : Host F⦄ (limit : Limits) where
  abbrev pub bounded : String → M F (Json F)
  bounded t = if too_long limit t then fail ErrorCode.script_limit else give (text t)

  unfoldable pub host_string : HostFunc F
  host_string a = arg a 0 >>= λ v. bounded (to_text v)

  abbrev pub number_or : ErrorCode → Json F → M F F
  number_or c v = elim (to_number v) [ none ↦ fail c | some f ↦ give f ]

  unfoldable pub host_number : HostFunc F
  host_number a = arg a 0 >>= λ v. number_or ErrorCode.script_runtime v >>= λ f. give (float f)

  unfoldable pub host_len : HostFunc F
  host_len a = arg a 0 >>= λ v. give (count (length_of v))

  -- The loop of join(): what is written so far, and whether an item has been.
  unfoldable pub join_loop : String → Items F → String → Bool → Option String
  join_loop sep nil so_far begun = some so_far
  join_loop sep (cons v rest) so_far begun =
      let longer = concat (if begun then concat so_far sep else so_far) (to_text v) in
      let rested = join_loop sep rest longer true in if too_long limit longer then none else rested

  abbrev pub join_items : String → Json F → M F (Json F)
  join_items sep (array items) =
      if ltb 256 (item_count items)
      then fail ErrorCode.script_limit
      else elim (join_loop sep items "" false) [
        | none ↦ fail ErrorCode.script_limit
        | some t ↦ give (text t)
      ]
  join_items sep v = fail ErrorCode.script_runtime

  abbrev pub separator : Args F → M F String
  separator a = if ltb 1 a.amount then arg a 1 >>= (λ v. give (to_text v)) else give ""

  -- The separator is evaluated before the list.
  unfoldable pub host_join : HostFunc F
  host_join a = separator a >>= λ sep. arg a 0 >>= λ items. join_items sep items

  unfoldable pub host_trim : HostFunc F
  host_trim a = arg a 0 >>= λ v. give (text (host.trim (to_text v)))

  unfoldable pub int_arg : Args F → ℕ → ℤ → M F ℤ
  int_arg a i default = arg a i >>= λ v.
      if is_null v
      then give default
      else number_or ErrorCode.script_runtime v >>= λ f. give (fl.to_int f)

  abbrev pub end_arg : Args F → ℕ → M F ℤ
  end_arg a n = if ltb 2 a.amount then int_arg a 2 (pos n) else give (pos n)

  abbrev pub slice_of : Args F → ℤ → Json F → M F (Json F)
  slice_of a start (text t) = end_arg a (host.rune_count t) >>= λ stop.
      give (slice_text t (clamp_range (pos (host.rune_count t)) start stop))
  slice_of a start (array items) = end_arg a (item_count items) >>= λ stop.
      give (array (slice_items (clamp_range (pos (item_count items)) start stop) items))
  slice_of a start v = fail ErrorCode.script_runtime

  unfoldable pub host_slice : HostFunc F
  host_slice a = arg a 0 >>= λ v. int_arg a 1 (pos 0) >>= λ start. slice_of a start v

  unfoldable pub host_upper : HostFunc F
  host_upper a = arg a 0 >>= λ v. give (text (host.to_upper (to_text v)))

  unfoldable pub host_lower : HostFunc F
  host_lower a = arg a 0 >>= λ v. give (text (host.to_lower (to_text v)))

  unfoldable pub host_replace : HostFunc F
  host_replace a = arg a 0 >>= λ src. arg a 1 >>= λ from.
      arg a 2 >>= λ to. bounded (host.replace_all (to_text src) (to_text from) (to_text to))

  -- v == nil || v == ""
  abbrev pub is_blank : Json F → Bool
  is_blank null = true
  is_blank (text t) = same t ""
  is_blank _ = false

  unfoldable pub host_default : HostFunc F
  host_default a = arg a 0 >>= λ v. if is_blank v then arg a 1 else give v

  abbrev has_key : Json F → String → Bool
  has_key (object fields) k = has_field k fields
  has_key _ k = false

  abbrev safe_has : Json F → String → Bool
  safe_has v k = if is_proto_key k then false else has_key v k

  unfoldable pub host_has : HostFunc F
  host_has a = arg a 0 >>= λ v. arg a 1 >>= λ key. give (bool (safe_has v (to_text key)))

  abbrev pub add_note : String → M F (Json F)
  add_note note st = gave null (record st { notes = st.notes ++ note ∷ [] })

  unfoldable pub host_toast : HostFunc F
  host_toast a = arg a 0 >>= λ v. add_note (to_text v)

  unfoldable pub host_log : HostFunc F
  host_log a = arg a 0 >>= λ v. add_note (to_text v)

  -- `hostFuncTable`
  unfoldable pub host_func_table : List (String × HostFunc F)
  host_func_table =
      ("string", host_string)
      ∷ ("number", host_number)
      ∷ ("len", host_len)
      ∷ ("join", host_join)
      ∷ ("trim", host_trim)
      ∷ ("slice", host_slice)
      ∷ ("upper", host_upper)
      ∷ ("lower", host_lower)
      ∷ ("replace", host_replace)
      ∷ ("default", host_default)
      ∷ ("has", host_has)
      ∷ ("toast", host_toast)
      ∷ ("log", host_log)
      ∷ []

  -- `evalCall`
  unfoldable pub eval_call : String → Args F → M F (Json F)
  eval_call name a = elim (lookup name host_func_table) [
    | none ↦ λ st. stuck (unknown_call name) st
    | some f ↦ if ltb 8 a.amount then fail ErrorCode.script_limit else f a
  ]
