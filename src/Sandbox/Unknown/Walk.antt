-- ===== src/Sandbox/Unknown/Walk.antt =====
-- internal/sandbox/interp.go: the names of functions that the walk of `Analyze` gathers are those of all
-- calls of a script.
use ic.Prelude.{String, List, In}
use ic.Graph.Document.{Items, nil, cons, Fields, end, field}
use ic.Sandbox.Syntax.{
  Expr, lit, ident, member, index, unary, binary, ternary, call, array_of, object_of, Exprs,
  no_exprs, expr, Props, no_props, prop, Stmt, assign, if_stmt, return_stmt, expr_stmt, Stmts,
  no_stmts, stmt, add_name,
}
use ic.Sandbox.Analyze.{calls_expr, calls_exprs, calls_props, calls_stmt, calls_stmts}
use ic.Sandbox.Names.{add_name-keeps, add_name-has}
use ic.Sandbox.Logic.Defs.{EachItem, EachField}
use ic.Sandbox.Logic.Admits.{AdmitsExpr, AdmitsExprs, AdmitsProps, AdmitsStmt, AdmitsStmts}

abbrev pub Any : {A : Type 0} → A → Type 0
Any a = Unit

-- The walk only adds names.
module _ {F : Type 0} (x : String) where
  mutual
    unfolding calls_expr

    pub keeps_expr : (e : Expr F) (out : List String) → In x out → In x (calls_expr e out)
    keeps_expr (lit v) out m = m
    keeps_expr (ident n) out m = m
    keeps_expr (member obj n) out m = keeps_expr obj out m
    keeps_expr (index obj i) out m = keeps_expr i (calls_expr obj out) (keeps_expr obj out m)
    keeps_expr (unary op e) out m = keeps_expr e out m
    keeps_expr (binary op l r) out m = keeps_expr r (calls_expr l out) (keeps_expr l out m)
    keeps_expr (ternary c t o) out m =
        keeps_expr o (calls_expr t (calls_expr c out))
          (keeps_expr t (calls_expr c out) (keeps_expr c out m))
    keeps_expr (call fn args) out m = keeps_exprs args (add_name fn out) (add_name-keeps fn x out m)
    keeps_expr (array_of items) out m = keeps_exprs items out m
    keeps_expr (object_of props) out m = keeps_props props out m

    pub keeps_exprs : (es : Exprs F) (out : List String) → In x out → In x (calls_exprs es out)
    keeps_exprs no_exprs out m = m
    keeps_exprs (expr e es) out m = keeps_exprs es (calls_expr e out) (keeps_expr e out m)

    pub keeps_props : (ps : Props F) (out : List String) → In x out → In x (calls_props ps out)
    keeps_props no_props out m = m
    keeps_props (prop k e ps) out m = keeps_props ps (calls_expr e out) (keeps_expr e out m)

  mutual
    unfolding calls_stmt

    pub keeps_stmt : (t : Stmt F) (out : List String) → In x out → In x (calls_stmt t out)
    keeps_stmt (assign n e) out m = keeps_expr e out m
    keeps_stmt (if_stmt c t o) out m =
        keeps_stmts o (calls_stmts t (calls_expr c out))
          (keeps_stmts t (calls_expr c out) (keeps_expr c out m))
    keeps_stmt (return_stmt e) out m = keeps_expr e out m
    keeps_stmt (expr_stmt e) out m = keeps_expr e out m

    pub keeps_stmts : (ts : Stmts F) (out : List String) → In x out → In x (calls_stmts ts out)
    keeps_stmts no_stmts out m = m
    keeps_stmts (stmt t ts) out m = keeps_stmts ts (calls_stmt t out) (keeps_stmt t out m)

abbrev pub Holds : (String → Type 0) → List String → Type 0
Holds P names = (x : String) → In x names → P x

-- Every call of a tree is admitted where the names that the walk gathers are.
module _ {F : Type 0} (Call : String → Type 0) where
  mutual
    unfolding calls_expr AdmitsExpr

    pub admits_expr :
        (e : Expr F) (out : List String) → Holds Call (calls_expr e out) → AdmitsExpr Any Any Call e
    admits_expr (lit v) out h = tt
    admits_expr (ident n) out h = tt
    admits_expr (member obj n) out h = admits_expr obj out h
    admits_expr (index obj i) out h = (
      admits_expr obj out (λ x m. h x (keeps_expr x i (calls_expr obj out) m)),
      admits_expr i (calls_expr obj out) h,
    )
    admits_expr (unary op e) out h = admits_expr e out h
    admits_expr (binary op l r) out h = (
      admits_expr l out (λ x m. h x (keeps_expr x r (calls_expr l out) m)),
      admits_expr r (calls_expr l out) h,
    )
    admits_expr (ternary c t o) out h = (
      admits_expr c out (λ x m.
          h x (
            keeps_expr x o (calls_expr t (calls_expr c out))
              (keeps_expr x t (calls_expr c out) m))),
      admits_expr t (calls_expr c out)
          (λ x m. h x (keeps_expr x o (calls_expr t (calls_expr c out)) m)),
      admits_expr o (calls_expr t (calls_expr c out)) h,
    )
    admits_expr (call fn args) out h = (
      h fn (keeps_exprs fn args (add_name fn out) (add_name-has fn out)),
      admits_exprs args (add_name fn out) h,
    )
    admits_expr (array_of items) out h = admits_exprs items out h
    admits_expr (object_of props) out h = admits_props props out h

    pub admits_exprs :
        (es : Exprs F) (out : List String)
        → Holds Call (calls_exprs es out)
        → AdmitsExprs Any Any Call es
    admits_exprs no_exprs out h = tt
    admits_exprs (expr e es) out h = (
      admits_expr e out (λ x m. h x (keeps_exprs x es (calls_expr e out) m)),
      admits_exprs es (calls_expr e out) h,
    )

    pub admits_props :
        (ps : Props F) (out : List String)
        → Holds Call (calls_props ps out)
        → AdmitsProps Any Any Call ps
    admits_props no_props out h = tt
    admits_props (prop k e ps) out h = (
      tt,
      admits_expr e out (λ x m. h x (keeps_props x ps (calls_expr e out) m)),
      admits_props ps (calls_expr e out) h,
    )

  mutual
    unfolding calls_stmt AdmitsStmt

    pub admits_stmt :
        (t : Stmt F) (out : List String) → Holds Call (calls_stmt t out) → AdmitsStmt Any Any Call t
    admits_stmt (assign n e) out h = admits_expr e out h
    admits_stmt (if_stmt c t o) out h = (
      admits_expr c out (λ x m. h x (
          keeps_stmts x o (calls_stmts t (calls_expr c out))
            (keeps_stmts x t (calls_expr c out) m))),
      admits_stmts t (calls_expr c out)
          (λ x m. h x (keeps_stmts x o (calls_stmts t (calls_expr c out)) m)),
      admits_stmts o (calls_stmts t (calls_expr c out)) h,
    )
    admits_stmt (return_stmt e) out h = admits_expr e out h
    admits_stmt (expr_stmt e) out h = admits_expr e out h

    pub admits_stmts :
        (ts : Stmts F) (out : List String)
        → Holds Call (calls_stmts ts out)
        → AdmitsStmts Any Any Call ts
    admits_stmts no_stmts out h = tt
    admits_stmts (stmt t ts) out h = (
      admits_stmt t out (λ x m. h x (keeps_stmts x ts (calls_stmt t out) m)),
      admits_stmts ts (calls_stmt t out) h,
    )

pub each_item : {F : Type 0} (items : Items F) → EachItem Any items
each_item nil = tt
each_item (cons v rest) = (tt, each_item rest)

pub each_field : {F : Type 0} (fields : Fields F) → EachField Any Any fields
each_field end = tt
each_field (field k v rest) = (tt, tt, each_field rest)
