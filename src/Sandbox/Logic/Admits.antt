-- ===== src/Sandbox/Logic/Admits.antt =====
-- internal/sandbox/ast.go: trees whose literals, keys of objects and names of functions are admitted.
use ic.Prelude.{String}
use ic.Graph.Document.{Json}
use ic.Sandbox.Syntax.{
  Expr, lit, ident, member, index, unary, binary, ternary, call, array_of, object_of, Exprs,
  no_exprs, expr, Props, no_props, prop, Stmt, assign, if_stmt, return_stmt, expr_stmt, Stmts,
  no_stmts, stmt,
}

-- A tree whose literals, keys of objects and names of functions are admitted.
module _ {F : Type 0} (Lit : Json F → Type 0) (Key Call : String → Type 0) where
  unfoldable mutual
    pub AdmitsExpr : Expr F → Type 0
    AdmitsExpr (lit v) = Lit v
    AdmitsExpr (ident n) = Unit
    AdmitsExpr (member obj n) = AdmitsExpr obj
    AdmitsExpr (index obj i) = AdmitsExpr obj × AdmitsExpr i
    AdmitsExpr (unary op e) = AdmitsExpr e
    AdmitsExpr (binary op l r) = AdmitsExpr l × AdmitsExpr r
    AdmitsExpr (ternary c t o) = AdmitsExpr c × AdmitsExpr t × AdmitsExpr o
    AdmitsExpr (call fn args) = Call fn × AdmitsExprs args
    AdmitsExpr (array_of items) = AdmitsExprs items
    AdmitsExpr (object_of props) = AdmitsProps props

    pub AdmitsExprs : Exprs F → Type 0
    AdmitsExprs no_exprs = Unit
    AdmitsExprs (expr e es) = AdmitsExpr e × AdmitsExprs es

    pub AdmitsProps : Props F → Type 0
    AdmitsProps no_props = Unit
    AdmitsProps (prop k e ps) = Key k × AdmitsExpr e × AdmitsProps ps

  unfoldable mutual
    unfolding AdmitsExpr

    pub AdmitsStmt : Stmt F → Type 0
    AdmitsStmt (assign x e) = AdmitsExpr e
    AdmitsStmt (if_stmt c t o) = AdmitsExpr c × AdmitsStmts t × AdmitsStmts o
    AdmitsStmt (return_stmt e) = AdmitsExpr e
    AdmitsStmt (expr_stmt e) = AdmitsExpr e

    pub AdmitsStmts : Stmts F → Type 0
    AdmitsStmts no_stmts = Unit
    AdmitsStmts (stmt s ss) = AdmitsStmt s × AdmitsStmts ss
