-- ===== src/Sandbox/Analyze.antt =====
-- internal/sandbox/interp.go: `Analyze`, what a script may touch, told without running it. The
-- messages of refused uses stand in English.
use ic.Prelude.{
  String, Bool, not, ◌||◌, List, [], Option, none, some, same, concat, keep, sort_strings,
  if◌then◌else◌,
}
use ic.Prelude.Dict.{has}
use ic.Platform.Float.{Float64}
use ic.Graph.Document.{Json, text}
use ic.Sandbox.Limits.{default_limits}
use ic.Sandbox.Values.{Host, is_proto_key}
use ic.Sandbox.HostFuncs.{host_func_table}
use ic.Sandbox.Syntax.{
  Expr, lit, ident, member, index, unary, binary, ternary, call, array_of, object_of, Exprs,
  no_exprs, expr, Props, no_props, prop, Stmt, assign, if_stmt, return_stmt, expr_stmt, Stmts,
  no_stmts, stmt, BinaryOp, add_name, free_idents,
}

abbrev joined : Option String → Option String → Option String
joined (some l) (some r) = some (concat l r)
joined _ _ = none

module _ {F : Type 0} where
  -- The names of the functions that are called: `fns` is a set.
  unfoldable mutual
    pub calls_expr : Expr F → List String → List String
    calls_expr (lit v) fns = fns
    calls_expr (ident n) fns = fns
    calls_expr (member obj n) fns = calls_expr obj fns
    calls_expr (index obj i) fns = calls_expr i (calls_expr obj fns)
    calls_expr (unary op e) fns = calls_expr e fns
    calls_expr (binary op l r) fns = calls_expr r (calls_expr l fns)
    calls_expr (ternary c t o) fns = calls_expr o (calls_expr t (calls_expr c fns))
    calls_expr (call fn args) fns = calls_exprs args (add_name fn fns)
    calls_expr (array_of items) fns = calls_exprs items fns
    calls_expr (object_of props) fns = calls_props props fns

    pub calls_exprs : Exprs F → List String → List String
    calls_exprs no_exprs fns = fns
    calls_exprs (expr e es) fns = calls_exprs es (calls_expr e fns)

    pub calls_props : Props F → List String → List String
    calls_props no_props fns = fns
    calls_props (prop k e ps) fns = calls_props ps (calls_expr e fns)

  unfoldable mutual
    unfolding calls_expr

    pub calls_stmt : Stmt F → List String → List String
    calls_stmt (assign x e) fns = calls_expr e fns
    calls_stmt (if_stmt c t o) fns = calls_stmts o (calls_stmts t (calls_expr c fns))
    calls_stmt (return_stmt e) fns = calls_expr e fns
    calls_stmt (expr_stmt e) fns = calls_expr e fns

    pub calls_stmts : Stmts F → List String → List String
    calls_stmts no_stmts fns = fns
    calls_stmts (stmt s ss) fns = calls_stmts ss (calls_stmt s fns)

  abbrev literal_text : Json F → Option String
  literal_text (text s) = some s
  literal_text _ = none

  -- `literalString`: the text of literals put together by +.
  unfoldable pub literal_string : Expr F → Option String
  literal_string (lit v) = literal_text v
  literal_string (binary BinaryOp.add l r) = joined (literal_string l) (literal_string r)
  literal_string _ = none

-- The refused uses so far, each once, and whether the walk goes on: nothing where it reads the first
-- argument of a call that has none, which is a panic of the code.
abbrev pub Notes : Type 0
Notes = Option (List String)

abbrev note : String → List String → List String
note message out = add_name message out

abbrev refused_name : String → String
refused_name key = concat "property " key

abbrev refused_key : String → String
refused_key key = concat "object key " key

abbrev note_key : (String → String) → String → List String → List String
note_key message key out = if is_proto_key key then note (message key) out else out

abbrev note_literal : Option String → List String → List String
note_literal none out = out
note_literal (some key) out = note_key refused_name key out

abbrev pub walks : Notes → (List String → Notes) → Notes
walks none next = none
walks (some out) next = next out

-- t.fn == "has" || t.fn == "join" || t.fn == "replace"
abbrev reads_first : String → Bool
reads_first fn = same fn "has" || same fn "join" || same fn "replace"

module _ {F : Type 0} where
  -- `staticForbidden`
  unfoldable mutual
    unfolding literal_string add_name

    pub forbidden_expr : Expr F → List String → Notes
    forbidden_expr (lit v) out = some out
    forbidden_expr (ident n) out = some out
    forbidden_expr (member obj n) out = forbidden_expr obj (note_key refused_name n out)
    forbidden_expr (index obj i) out =
        walks (forbidden_expr obj (note_literal (literal_string i) out)) (forbidden_expr i)
    forbidden_expr (unary op e) out = forbidden_expr e out
    forbidden_expr (binary op l r) out = walks (forbidden_expr l out) (forbidden_expr r)
    forbidden_expr (ternary c t o) out =
        walks (walks (forbidden_expr c out) (forbidden_expr t)) (forbidden_expr o)
    forbidden_expr (call fn args) out =
        walks (let read = forbidden_first args out in if reads_first fn then read else some out)
          (forbidden_exprs args)
    forbidden_expr (array_of items) out = forbidden_exprs items out
    forbidden_expr (object_of props) out = forbidden_props props out

    -- walkExpr(t.args[0])
    pub forbidden_first : Exprs F → List String → Notes
    forbidden_first no_exprs out = none
    forbidden_first (expr e es) out = forbidden_expr e out

    pub forbidden_exprs : Exprs F → List String → Notes
    forbidden_exprs no_exprs out = some out
    forbidden_exprs (expr e es) out = walks (forbidden_expr e out) (forbidden_exprs es)

    pub forbidden_props : Props F → List String → Notes
    forbidden_props no_props out = some out
    forbidden_props (prop k e ps) out =
        walks (forbidden_expr e (note_key refused_key k out)) (forbidden_props ps)

  unfoldable mutual
    unfolding forbidden_expr

    pub forbidden_stmt : Stmt F → List String → Notes
    forbidden_stmt (assign x e) out = forbidden_expr e out
    forbidden_stmt (if_stmt c t o) out =
        walks (walks (forbidden_expr c out) (forbidden_stmts t)) (forbidden_stmts o)
    forbidden_stmt (return_stmt e) out = forbidden_expr e out
    forbidden_stmt (expr_stmt e) out = forbidden_expr e out

    pub forbidden_stmts : Stmts F → List String → Notes
    forbidden_stmts no_stmts out = some out
    forbidden_stmts (stmt s ss) out = walks (forbidden_stmt s out) (forbidden_stmts ss)

pub record Analysis : Type 0 where
  pub reads : List String
  pub calls : List String
  pub unknown_calls : List String
  pub forbidden : List String

module _ {F : Type 0} ⦃fl : Float64 F⦄ ⦃host : Host F⦄ where
  -- The analysis of a tree; nothing where the code panics.
  unfoldable pub analyze_program : Stmts F → Option Analysis
  unfolding calls_expr calls_stmt forbidden_expr forbidden_stmt
  analyze_program body =
      let calls = sort_strings (calls_stmts body []) in
      elim (forbidden_stmts body []) [
        | none ↦ none
        | some out ↦ some (record {
          reads = free_idents body;
          calls = calls;
          unknown_calls =
              keep (λ name. not (has name (host_func_table {F = F} default_limits))) calls;
          forbidden = out;
        })
      ]
