-- ===== src/Sandbox/Eval.antt =====
-- internal/sandbox/eval.go: the evaluation of expressions and statements. What a construct does with
-- the evaluations of its parts stands in a function of its own.
pub mod Reads
use ic.Prelude.{
  ℕ, zero, suc, String, Bool, true, false, not, ◌&&◌, ◌||◌, List, Option, none, some, len, ltb, [],
  if◌then◌else◌, same, concat,
}
use ic.Prelude.Int.{ℤ, pos, negsuc, ltb_ℤ, pos_part}
use ic.Prelude.Dict.{lookup, insert}
use ic.Platform.Float.{Float64, ◌<f◌, ◌+f◌, ◌-f◌, ◌*f◌, ◌/f◌, not_finite}
use ic.Graph.Document.{
  Spec, Json, null, bool, float, text, array, object, Items, nil, cons, Fields, end,
}
use ic.Sandbox.Limits.{Fault, fault, ErrorCode}
use ic.Sandbox.Syntax.{
  UnaryOp, BinaryOp, Expr, lit, ident, member, index, unary, binary, ternary, call, array_of,
  object_of, Exprs, no_exprs, expr, Props, no_props, prop, expr_count, Stmt, assign, if_stmt,
  return_stmt, expr_stmt, Stmts, no_stmts, stmt,
}
use ic.Sandbox.Values.{
  Host, Answer, value, failed, fails, to_text, to_number, to_index, truthy, is_null, type_name,
  loose_equal, member_value, item_count, item_at, field_at, set_field, is_proto_key, is_zero,
}
use ic.Sandbox.Machine.{
  M, Interp, Ran, gave, stuck, give, fail, answer_with, Setting, tick, ◌>>=◌, ◌>>◌, after_run,
}
use ic.Sandbox.Operators.{index_value, unary_value, binary_value}
use ic.Sandbox.HostFuncs.{Args, eval_call}

module _ {F : Type 0} ⦃fl : Float64 F⦄ ⦃host : Host F⦄ where
  abbrev pub found_or : Option (Json F) → M F (Json F) → M F (Json F)
  found_or none other = other
  found_or (some v) other = give v

  -- A name is a local, or else one of the environment.
  unfoldable pub eval_ident : Spec F → String → M F (Json F)
  eval_ident env name st =
      found_or (lookup name st.local) (found_or (lookup name env) (fail ErrorCode.script_runtime))
        st

  unfoldable pub eval_member : M F (Json F) → String → M F (Json F)
  eval_member obj name = obj >>= λ v. answer_with (member_value v name)

  -- `evalIndex`
  unfoldable pub eval_index : M F (Json F) → M F (Json F) → M F (Json F)
  eval_index obj i = obj >>= λ v. i >>= λ n. answer_with (index_value v n)

  -- `evalUnary`
  unfoldable pub eval_unary : UnaryOp → M F (Json F) → M F (Json F)
  eval_unary op oper = oper >>= λ v. answer_with (unary_value op v)

  -- `evalBinary`: the right operand of &&, || and ?? is evaluated only where it is needed.
  unfoldable pub eval_binary : BinaryOp → M F (Json F) → M F (Json F) → M F (Json F)
  eval_binary BinaryOp.and left right = left >>= λ l. if truthy l then right else give l
  eval_binary BinaryOp.or left right = left >>= λ l. if truthy l then give l else right
  eval_binary BinaryOp.coalesce left right = left >>= λ l. if is_null l then right else give l
  eval_binary op left right = left >>= λ l. right >>= λ r. answer_with (binary_value op l r)

  unfoldable pub eval_ternary : M F (Json F) → M F (Json F) → M F (Json F) → M F (Json F)
  eval_ternary c t o = c >>= λ v. if truthy v then t else o

  unfoldable pub store_local : String → M F (Json F) → M F (Option (Json F))
  store_local name m = m >>= λ v st. gave none (record st { local = insert name v st.local })

  -- One statement after another, until one returns a value.
  unfoldable pub and_then_stmt :
      M F (Option (Json F)) → M F (Option (Json F)) → M F (Option (Json F))
  and_then_stmt first rest = first >>= λ r. elim r [ none ↦ rest | some v ↦ give (some v) ]

  module _ (s : Setting F) where
    unfoldable mutual
      pub eval : Expr F → M F (Json F)
      eval (lit v) = tick s.clock >> give v
      eval (ident name) = tick s.clock >> eval_ident s.env name
      eval (member obj name) = tick s.clock >> eval_member (eval obj) name
      eval (index obj i) = tick s.clock >> eval_index (eval obj) (eval i)
      eval (unary op e) = tick s.clock >> eval_unary op (eval e)
      eval (binary op l r) = tick s.clock >> eval_binary op (eval l) (eval r)
      eval (ternary c t o) = tick s.clock >> eval_ternary (eval c) (eval t) (eval o)
      eval (call name args) =
          tick s.clock
          >> eval_call s.limit name (record { amount = expr_count args; eval_arg = eval_nth args })
      eval (array_of items) = tick s.clock >> (eval_items items >>= λ vs. give (array vs))
      eval (object_of props) = tick s.clock >> (eval_props props end >>= λ fs. give (object fs))

      -- The evaluation of an argument of a call.
      pub eval_nth : Exprs F → ℕ → M F (Json F)
      eval_nth no_exprs i = give null
      eval_nth (expr e es) zero = eval e
      eval_nth (expr e es) (suc i) = eval_nth es i

      pub eval_items : Exprs F → M F (Items F)
      eval_items no_exprs = give nil
      eval_items (expr e es) = eval e >>= λ v. eval_items es >>= λ vs. give (cons v vs)

      pub eval_props : Props F → Fields F → M F (Fields F)
      eval_props no_props out = give out
      eval_props (prop k e ps) out = eval e >>= λ v. eval_props ps (set_field k v out)

    -- `execStmt`, with the value that it returns, if it returns one.
    unfoldable mutual
      unfolding eval

      pub exec_stmt : Stmt F → M F (Option (Json F))
      exec_stmt (assign name e) = store_local name (eval e)
      exec_stmt (if_stmt c t o) = eval c >>= λ v. if truthy v then exec_block t else exec_block o
      exec_stmt (return_stmt e) = eval e >>= λ v. give (some v)
      exec_stmt (expr_stmt e) = eval e >>= λ v. give none

      pub exec_block : Stmts F → M F (Option (Json F))
      exec_block no_stmts = give none
      exec_block (stmt t ts) = tick s.clock >> and_then_stmt (exec_stmt t) (exec_block ts)

    -- The local `out`, where a script returns nothing.
    unfoldable pub implicit_out : Option (Json F) → M F (Json F)
    implicit_out (some v) st = gave v st
    implicit_out none st = found_or (lookup "out" st.local) (fail ErrorCode.script_output_shape) st

    -- `run`
    unfoldable pub run : Stmts F → M F (Json F)
    run body = exec_block body >>= implicit_out

    -- The value of a script is an object that is not too large.
    unfoldable pub object_result : Json F → M F (Fields F)
    object_result (object fields) = elim (host.marshal (object fields)) [
      | none ↦ fail ErrorCode.script_output_shape
      | some raw ↦
          if ltb_ℤ s.limit.max_output_bytes (pos (len raw))
          then fail ErrorCode.script_limit
          else give fields
    ]
    object_result v = fail ErrorCode.script_output_shape

    unfoldable pub start_interp : Interp F
    start_interp = record { local = []; budget = s.limit.max_steps; notes = [] }

    -- `RunDetailed`, from the tree of the script.
    unfoldable pub run_program : Stmts F → Ran F (Fields F)
    run_program body = (run body >>= object_result) start_interp
