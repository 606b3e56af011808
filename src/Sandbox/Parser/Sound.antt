-- ===== src/Sandbox/Parser/Sound.antt =====
-- internal/sandbox/parser.go: a parsed script writes no key of the prototype chain and no other literal
-- than a number, a text, a Boolean or null.
use ic.Prelude.{ℕ, zero, suc, ◌+◌, String, Bool, true, false, ◌&&◌, ◌||◌, List, same}
use ic.Graph.Document.{null}
use ic.Sandbox.Limits.{ErrorCode}
use ic.Sandbox.Syntax.{
  Expr, lit, Stmt, assign, if_stmt, return_stmt, expr_stmt, Stmts, no_stmts, stmt,
}
use ic.Sandbox.Lexer.{Token}
use ic.Sandbox.Clean.{IsClean}
use ic.Sandbox.Logic.Admits.{AdmitsStmt}
use ic.Sandbox.Parser.{
  parse_statements, parse_statement, parse_if, parse_ternary, parse_binary, binary_loop,
  parse_unary, parse_postfix, postfix_loop, parse_primary, parse_items, parse_props, parse_tokens,
  parse_fuel,
}
use ic.Sandbox.Parser.Rules.{
  P, ◌>>=◌, give, cur, next, refuse, at, expect, statements_at, statement_at, if_rule, assign_rule,
  var_rule, return_rule, expression_rule, block_rule, otherwise_rule, skip_one, is_word,
  is_ident_kind, is_eof, peek_next,
}
use ic.Sandbox.Parser.Phrases.{ternary_rule, peek_bin_op, unary_of, primary_at}
use ic.Sandbox.Parser.Makes.{
  Told, Makes, bind-Makes, step-Makes, give-Makes, refuse-Makes, fuel-Makes, if-Makes, enter-Makes,
  CleanExpr, CleanExprs, CleanProps, CleanStmt, CleanStmts,
}
use ic.Sandbox.Clean.{WritesClean}
use ic.Sandbox.Parser.Clean.{
  ternary-Makes, binary_at-Makes, unary_at-Makes, postfix_at-Makes, items-Makes, props-Makes,
  primary-Makes,
}

module _ {F : Type 0} (expression : P F (Expr F)) (e-ok : Makes CleanExpr expression) where
  assign-Makes : (name : String) → Makes CleanStmt (assign_rule name expression)
  unfolding AdmitsStmt
  assign-Makes name =
      bind-Makes CleanExpr CleanStmt expression _ e-ok
        (λ e g. give-Makes CleanStmt (assign name e) g)

  plain-Makes : Makes CleanStmt (expression_rule expression)
  unfolding AdmitsStmt
  plain-Makes =
      bind-Makes CleanExpr CleanStmt expression _ e-ok (λ e g. give-Makes CleanStmt (expr_stmt e) g)

  var-Makes : Makes CleanStmt (var_rule expression)
  var-Makes = step-Makes CleanStmt cur _ (λ t.
      if-Makes CleanStmt (is_ident_kind t.kind) _ (refuse ErrorCode.script_syntax)
        (step-Makes CleanStmt next _
          (λ u. step-Makes CleanStmt (expect "=") _ (λ v. assign-Makes t.text)))
        (refuse-Makes CleanStmt ErrorCode.script_syntax))

  return-Makes : Makes CleanStmt (return_rule expression)
  unfolding AdmitsStmt IsClean
  return-Makes = step-Makes CleanStmt (at ";") _ (λ a. step-Makes CleanStmt (at "}") _ (λ b.
      step-Makes CleanStmt cur _ (λ t.
        if-Makes CleanStmt (a || b || is_eof t) (give (return_stmt (lit null))) _
          (give-Makes CleanStmt (return_stmt (lit null)) tt)
          (bind-Makes CleanExpr CleanStmt expression _ e-ok
            (λ e g. give-Makes CleanStmt (return_stmt e) g)))))

  statement_at-Makes :
      (t : Token F) (if_statement : P F (Stmt F))
      → Makes CleanStmt if_statement
      → Makes CleanStmt (statement_at t expression if_statement)
  unfolding statement_at
  statement_at-Makes t if_statement k =
      if-Makes CleanStmt (is_word "var" t) _ _ (step-Makes CleanStmt next _ (λ u. var-Makes)) (
        if-Makes CleanStmt (is_word "if" t) if_statement _ k (
          if-Makes CleanStmt (is_word "return" t) _ _
            (step-Makes CleanStmt next _ (λ u. return-Makes))
            (if-Makes CleanStmt (is_ident_kind t.kind) _ (expression_rule expression)
              (step-Makes CleanStmt peek_next _ (λ u.
                if-Makes CleanStmt (same u.text "=") _ (expression_rule expression)
                  (step-Makes CleanStmt next _
                    (λ v. step-Makes CleanStmt next _ (λ w. assign-Makes t.text)))
                  plain-Makes))
              plain-Makes)))

  block-Makes : (body : P F (Stmts F)) → Makes CleanStmts body → Makes CleanStmts (block_rule body)
  block-Makes body k = step-Makes CleanStmts (expect "{") _ (λ t.
      bind-Makes CleanStmts CleanStmts body _ k
        (λ ss g. step-Makes CleanStmts (expect "}") _ (λ u. give-Makes CleanStmts ss g)))

  otherwise-Makes :
      (body : P F (Stmts F)) (if_statement : P F (Stmt F))
      → Makes CleanStmts body
      → Makes CleanStmt if_statement
      → Makes CleanStmts (otherwise_rule body if_statement)
  unfolding AdmitsStmt
  otherwise-Makes body if_statement kb ki = step-Makes CleanStmts (at "else") _ (λ here.
      if-Makes CleanStmts here _ (give no_stmts)
        (step-Makes CleanStmts next _ (λ t. step-Makes CleanStmts (at "if") _ (λ again.
          if-Makes CleanStmts again _ (block_rule body)
            (bind-Makes CleanStmt CleanStmts if_statement _ ki
              (λ s g. give-Makes CleanStmts (stmt s no_stmts) (g, tt)))
            (block-Makes body kb))))
        (give-Makes CleanStmts no_stmts tt))

  if_rule-Makes :
      (body : P F (Stmts F)) (if_statement : P F (Stmt F))
      → Makes CleanStmts body
      → Makes CleanStmt if_statement
      → Makes CleanStmt (if_rule expression body if_statement)
  unfolding if_rule AdmitsStmt
  if_rule-Makes body if_statement kb ki = step-Makes CleanStmt next _ (λ t.
      step-Makes CleanStmt (expect "(") _ (λ u.
        bind-Makes CleanExpr CleanStmt expression _ e-ok (λ c gc.
          step-Makes CleanStmt (expect ")") _ (λ v.
            bind-Makes CleanStmts CleanStmt (block_rule body) _ (block-Makes body kb) (λ th gt.
              bind-Makes CleanStmts CleanStmt (otherwise_rule body if_statement) _
                (otherwise-Makes body if_statement kb ki)
                (λ o go. give-Makes CleanStmt (if_stmt c th o) (gc, gt, go)))))))

statements_at-Makes :
    {F : Type 0} (t : Token F) (nested : Bool) (one : P F (Stmt F)) (more : P F (Stmts F))
    → Makes CleanStmt one
    → Makes CleanStmts more
    → Makes CleanStmts (statements_at t nested one more)
unfolding statements_at AdmitsStmt
statements_at-Makes t nested one more ko km =
    if-Makes CleanStmts (is_eof t) _ _
      (if-Makes CleanStmts nested (refuse ErrorCode.script_syntax) (give no_stmts)
        (refuse-Makes CleanStmts ErrorCode.script_syntax) (give-Makes CleanStmts no_stmts tt))
      (if-Makes CleanStmts (nested && same t.text "}") (give no_stmts) _
        (give-Makes CleanStmts no_stmts tt)
        (if-Makes CleanStmts (same t.text ";") _ _ (step-Makes CleanStmts next _ (λ u. km)) (
          bind-Makes CleanStmt CleanStmts one _ ko (λ s g.
            step-Makes CleanStmts (skip_one ";") _ (λ u.
              bind-Makes CleanStmts CleanStmts more _ km
                (λ ss gs. give-Makes CleanStmts (stmt s ss) (g, gs)))))))

module _ {F : Type 0} where
  mutual
    unfolding parse_statements

    statements-IsClean :
        (f d : ℕ) (nested : Bool) → Makes {F = F} CleanStmts (parse_statements f d nested)
    statements-IsClean zero d nested = fuel-Makes CleanStmts
    statements-IsClean (suc f) d nested = step-Makes CleanStmts cur _ (λ t.
        statements_at-Makes t nested _ _ (statement-IsClean f d) (statements-IsClean f d nested))

    statement-IsClean : (f d : ℕ) → Makes {F = F} CleanStmt (parse_statement f d)
    statement-IsClean zero d = fuel-Makes CleanStmt
    statement-IsClean (suc f) d =
        step-Makes CleanStmt cur _
          (λ t. statement_at-Makes _ (ternary-IsClean f d) t _ (if-IsClean f d))

    if-IsClean : (f d : ℕ) → Makes {F = F} CleanStmt (parse_if f d)
    if-IsClean zero d = fuel-Makes CleanStmt
    if-IsClean (suc f) d =
        if_rule-Makes _ (ternary-IsClean f d) _ _ (statements-IsClean f d true) (if-IsClean f d)

    ternary-IsClean : (f d : ℕ) → Makes {F = F} CleanExpr (parse_ternary f d)
    ternary-IsClean zero d = fuel-Makes CleanExpr
    ternary-IsClean (suc f) d =
        enter-Makes CleanExpr d
          (λ deeper.
            ternary_rule (λ ts. parse_binary f deeper 0 ts) (λ ts. parse_ternary f deeper ts))
          (ternary-Makes _ (binary-IsClean f (d + 1) 0) _ (ternary-IsClean f (d + 1)))

    binary-IsClean : (f d min : ℕ) → Makes {F = F} CleanExpr (parse_binary f d min)
    binary-IsClean zero d min = fuel-Makes CleanExpr
    binary-IsClean (suc f) d min =
        enter-Makes CleanExpr d
          (λ deeper.
            (λ ts. parse_unary f deeper ts) >>= λ left ts. binary_loop f deeper min left ts)
          (bind-Makes CleanExpr CleanExpr _ _ (unary-IsClean f (d + 1))
            (λ left g. loop-IsClean f (d + 1) min left g))

    loop-IsClean :
        (f d min : ℕ) (left : Expr F) → CleanExpr left → Makes CleanExpr (binary_loop f d min left)
    loop-IsClean zero d min left g = fuel-Makes CleanExpr
    loop-IsClean (suc f) d min left g = step-Makes CleanExpr peek_bin_op _ (λ op.
        binary_at-Makes (λ ts. parse_unary f d ts) (unary-IsClean f d) op min left _ _ g
          (λ p. binary-IsClean f d p) (λ e ge. loop-IsClean f d min e ge))

    unary-IsClean : (f d : ℕ) → Makes {F = F} CleanExpr (parse_unary f d)
    unary-IsClean zero d = fuel-Makes CleanExpr
    unary-IsClean (suc f) d =
        step-Makes CleanExpr cur _
          (λ t. unary_at-Makes _ (unary-IsClean f d) (unary_of t) _ (postfix-IsClean f d))

    postfix-IsClean : (f d : ℕ) → Makes {F = F} CleanExpr (parse_postfix f d)
    postfix-IsClean zero d = fuel-Makes CleanExpr
    postfix-IsClean (suc f) d =
        bind-Makes CleanExpr CleanExpr _ _ (primary-IsClean f d)
          (λ e g. postfix_loop-IsClean f d e g)

    postfix_loop-IsClean :
        (f d : ℕ) (e : Expr F) → CleanExpr e → Makes CleanExpr (postfix_loop f d e)
    postfix_loop-IsClean zero d e g = fuel-Makes CleanExpr
    postfix_loop-IsClean (suc f) d e g =
        postfix_at-Makes _ (ternary-IsClean f d) e _ g (λ e' g'. postfix_loop-IsClean f d e' g')

    primary-IsClean : (f d : ℕ) → Makes {F = F} CleanExpr (parse_primary f d)
    primary-IsClean zero d = fuel-Makes CleanExpr
    primary-IsClean (suc f) d =
        enter-Makes CleanExpr d
          (λ deeper. cur >>= λ t.
            primary_at t (λ ts. parse_ternary f deeper ts)
              (λ close ts. parse_items f deeper close ts) (λ ts. parse_props f deeper ts))
          (step-Makes CleanExpr cur _ (λ t.
            primary-Makes _ (ternary-IsClean f (d + 1)) t _ _
              (λ close. items-IsClean f (d + 1) close) (props-IsClean f (d + 1))))

    items-IsClean : (f d : ℕ) (close : String) → Makes {F = F} CleanExprs (parse_items f d close)
    items-IsClean zero d close = fuel-Makes CleanExprs
    items-IsClean (suc f) d close =
        items-Makes _ (ternary-IsClean f d) close _ (items-IsClean f d close)

    props-IsClean : (f d : ℕ) → Makes {F = F} CleanProps (parse_props f d)
    props-IsClean zero d = fuel-Makes CleanProps
    props-IsClean (suc f) d = props-Makes _ (ternary-IsClean f d) _ (props-IsClean f d)

  -- What the parser makes of tokens writes no key of the prototype chain.
  pub parse_tokens-WritesClean : (ts : List (Token F)) → Told WritesClean (parse_tokens ts)
  unfolding parse_tokens
  parse_tokens-WritesClean ts =
      bind-Makes CleanStmts CleanStmts _ _ (statements-IsClean (parse_fuel ts) 0 false)
        (λ body g. step-Makes CleanStmts cur _ (λ t. ended (is_eof t) body g)) ts
    where
      ended :
          (b : Bool) (body : Stmts F)
          → CleanStmts body
          → Makes CleanStmts (elim b as (λ _. P F (Stmts F)) [
            | true ↦ give body
            | false ↦ refuse ErrorCode.script_syntax
          ])
      ended true body g = give-Makes CleanStmts body g
      ended false body g = refuse-Makes CleanStmts ErrorCode.script_syntax
