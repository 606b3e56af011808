-- ===== src/Sandbox/Syntax.antt =====
-- internal/sandbox/ast.go: the syntax trees of scripts, and the names of the environment that a
-- script mentions. An operator is one of those that the parser makes.
use ic.Prelude.{ℕ, suc, String, List, [], ◌∷◌, ◌++◌, if◌then◌else◌}
use ic.Graph.Document.{Json}
use ic.Graph.Cycle.{member as is_member}

pub data UnaryOp : Type 0 where
  bang neg plus typeof : UnaryOp

pub data BinaryOp : Type 0 where
  coalesce or and equal unequal : BinaryOp
  lt gt le ge : BinaryOp
  add sub mul div mod_op power : BinaryOp

mutual
  pub data Expr (F : Type 0) : Type 0 where
    lit : Json F → Expr F
    ident : String → Expr F
    member : Expr F → String → Expr F
    index : Expr F → Expr F → Expr F
    unary : UnaryOp → Expr F → Expr F
    binary : BinaryOp → Expr F → Expr F → Expr F
    ternary : Expr F → Expr F → Expr F → Expr F
    call : String → Exprs F → Expr F
    array_of : Exprs F → Expr F
    object_of : Props F → Expr F

  pub data Exprs (F : Type 0) : Type 0 where
    no_exprs : Exprs F
    expr : Expr F → Exprs F → Exprs F

  pub data Props (F : Type 0) : Type 0 where
    no_props : Props F
    prop : String → Expr F → Props F → Props F

mutual
  pub data Stmt (F : Type 0) : Type 0 where
    assign : String → Expr F → Stmt F
    if_stmt : Expr F → Stmts F → Stmts F → Stmt F
    return_stmt : Expr F → Stmt F
    expr_stmt : Expr F → Stmt F

  pub data Stmts (F : Type 0) : Type 0 where
    no_stmts : Stmts F
    stmt : Stmt F → Stmts F → Stmts F

-- len(args)
unfoldable pub expr_count : {F : Type 0} → Exprs F → ℕ
expr_count no_exprs = 0
expr_count (expr e es) = suc (expr_count es)

-- `add` of freeIdents: a name is kept once.
unfoldable pub add_name : String → List String → List String
add_name n out = if is_member n out then out else out ++ n ∷ []

-- The walks take the names so far and return them with those that they meet.
module _ {F : Type 0} where
  unfoldable mutual
    pub free_expr : Expr F → List String → List String
    free_expr (lit v) out = out
    free_expr (ident n) out = add_name n out
    free_expr (member obj n) out = free_expr obj out
    free_expr (index obj i) out = free_expr i (free_expr obj out)
    free_expr (unary op e) out = free_expr e out
    free_expr (binary op l r) out = free_expr r (free_expr l out)
    free_expr (ternary c t o) out = free_expr o (free_expr t (free_expr c out))
    free_expr (call fn args) out = free_exprs args out
    free_expr (array_of items) out = free_exprs items out
    free_expr (object_of props) out = free_props props out

    pub free_exprs : Exprs F → List String → List String
    free_exprs no_exprs out = out
    free_exprs (expr e es) out = free_exprs es (free_expr e out)

    pub free_props : Props F → List String → List String
    free_props no_props out = out
    free_props (prop k e ps) out = free_props ps (free_expr e out)

  unfoldable mutual
    unfolding free_expr

    pub free_stmt : Stmt F → List String → List String
    free_stmt (assign x e) out = free_expr e out
    free_stmt (if_stmt c t o) out = free_stmts o (free_stmts t (free_expr c out))
    free_stmt (return_stmt e) out = free_expr e out
    free_stmt (expr_stmt e) out = free_expr e out

    pub free_stmts : Stmts F → List String → List String
    free_stmts no_stmts out = out
    free_stmts (stmt s ss) out = free_stmts ss (free_stmt s out)

  unfoldable pub free_idents : Stmts F → List String
  unfolding free_stmts
  free_idents body = free_stmts body []
