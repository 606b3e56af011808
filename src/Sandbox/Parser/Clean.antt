-- ===== src/Sandbox/Parser/Clean.antt =====
-- internal/sandbox/parser.go: the trees that the parser makes write no key of the prototype chain.
use ic.Prelude.{
  ℕ, suc, ◌≡◌, refl, String, Bool, true, false, ◌||◌, Option, none, some, same, ltb, if◌then◌else◌,
}
use ic.Graph.Document.{Json, null, bool, float, text}
use ic.Sandbox.Limits.{ErrorCode}
use ic.Sandbox.Values.{is_proto_key}
use ic.Sandbox.Syntax.{
  UnaryOp, BinaryOp, Expr, lit, ident, member, index, unary, binary, ternary, call, array_of,
  object_of, Exprs, no_exprs, expr, Props, no_props, prop,
}
use ic.Sandbox.Lexer.{Token}
use ic.Sandbox.Clean.{IsClean, IsOrdinary}
use ic.Sandbox.Logic.Defs.{if-all}
use ic.Sandbox.Logic.Admits.{AdmitsExpr}
use ic.Sandbox.Parser.Rules.{
  P, ◌>>◌, give, cur, next, refuse, at, expect, is_ident_kind, is_keyword_kind, is_number_kind,
  is_string,
}
use ic.Sandbox.Parser.Phrases.{
  ternary_rule, binary_at, unary_at, postfix_at, primary_at, items_rule, props_rule, bracketed,
  checked_key, forbid, object_rule, call_rule, literal_of, word_literal, bracket_at, is_key_kind,
}
use ic.Sandbox.Parser.Makes.{
  Told, Makes, bind-Makes, step-Makes, give-Makes, refuse-Makes, if-Makes, CleanExpr, CleanExprs,
  CleanProps,
}

abbrev InSome : {F : Type 0} → Option (Json F) → Type 0
InSome none = Unit
InSome (some v) = IsClean v

literal-IsClean : {F : Type 0} (t : Token F) → InSome (literal_of t)
unfolding IsClean
literal-IsClean {F} t = if-all (InSome {F = F}) (is_number_kind t.kind) (some (float t.num)) _ tt (
    if-all (InSome {F = F}) (is_string t.kind) (some (text t.text)) _ tt (
      if-all (InSome {F = F}) (is_keyword_kind t.kind) (word_literal t.text) none
        (if-all (InSome {F = F}) (same t.text "true") (some (bool true)) _ tt (
          if-all (InSome {F = F}) (same t.text "false") (some (bool false)) _ tt (
            if-all (InSome {F = F}) (same t.text "null" || same t.text "undefined") (some null) none
              tt tt)))
        tt))

module _ {F : Type 0} (expression : P F (Expr F)) (e-ok : Makes CleanExpr expression) where
  pub ternary-Makes :
      (branch : P F (Expr F))
      → Makes CleanExpr branch
      → Makes CleanExpr (ternary_rule expression branch)
  unfolding ternary_rule AdmitsExpr
  ternary-Makes branch k = bind-Makes CleanExpr CleanExpr expression _ e-ok (λ c gc.
      step-Makes CleanExpr (at "?") _ (λ here.
        if-Makes CleanExpr here _ (give c)
          (step-Makes CleanExpr next _ (λ t. bind-Makes CleanExpr CleanExpr branch _ k (λ t gt.
            step-Makes CleanExpr (expect ":") _ (λ t'.
              bind-Makes CleanExpr CleanExpr branch _ k
                (λ o go. give-Makes CleanExpr (ternary c t o) (gc, gt, go))))))
          (give-Makes CleanExpr c gc)))

  pub binary_at-Makes :
      (op : Option (BinaryOp × ℕ)) (min : ℕ) (left : Expr F) (right : ℕ → P F (Expr F))
      (more : Expr F → P F (Expr F))
      → CleanExpr left
      → ((p : ℕ) → Makes CleanExpr (right p))
      → ((e : Expr F) → CleanExpr e → Makes CleanExpr (more e))
      → Makes CleanExpr (binary_at op min left right more)
  unfolding binary_at AdmitsExpr
  binary_at-Makes none min left right more g kr km = give-Makes CleanExpr left g
  binary_at-Makes (some (op, level)) min left right more g kr km =
      if-Makes CleanExpr (ltb level min) (give left) _ (give-Makes CleanExpr left g) (
        step-Makes CleanExpr next _ (λ t.
          bind-Makes CleanExpr CleanExpr (right (suc level)) _ (kr (suc level))
            (λ r gr. km (binary op left r) (g, gr))))

  pub unary_at-Makes :
      (op : Option UnaryOp) (postfix : P F (Expr F))
      → Makes CleanExpr postfix
      → Makes CleanExpr (unary_at op expression postfix)
  unfolding unary_at AdmitsExpr
  unary_at-Makes none postfix k = k
  unary_at-Makes (some op) postfix k = step-Makes CleanExpr next _ (λ t.
      bind-Makes CleanExpr CleanExpr expression _ e-ok (λ e g. give-Makes CleanExpr (unary op e) g))

  pub postfix_at-Makes :
      (e : Expr F) (more : Expr F → P F (Expr F))
      → CleanExpr e
      → ((e' : Expr F) → CleanExpr e' → Makes CleanExpr (more e'))
      → Makes CleanExpr (postfix_at e expression more)
  unfolding postfix_at AdmitsExpr
  postfix_at-Makes e more g km = step-Makes CleanExpr (at ".") _ (λ dot.
      step-Makes CleanExpr (at "[") _ (λ bracket.
        if-Makes CleanExpr dot _ _
          (step-Makes CleanExpr next _ (λ d. step-Makes CleanExpr cur _ (λ t.
            if-Makes CleanExpr (is_ident_kind t.kind || is_keyword_kind t.kind) _ _
              (step-Makes CleanExpr next _ (λ u. km (member e t.text) g))
              (refuse-Makes CleanExpr ErrorCode.script_syntax))))
          (if-Makes CleanExpr bracket _ (give e)
            (step-Makes CleanExpr next _ (λ t.
              bind-Makes CleanExpr CleanExpr expression _ e-ok
                (λ i gi. step-Makes CleanExpr (expect "]") _ (λ u. km (index e i) (g, gi)))))
            (give-Makes CleanExpr e g))))

  pub items-Makes :
      (close : String) (more : P F (Exprs F))
      → Makes CleanExprs more
      → Makes CleanExprs (items_rule close expression more)
  unfolding items_rule AdmitsExpr
  items-Makes close more km = bind-Makes CleanExpr CleanExprs expression _ e-ok (λ e g.
      step-Makes CleanExprs (at ",") _ (λ comma.
        if-Makes CleanExprs comma _ (give (expr e no_exprs))
          (step-Makes CleanExprs next _ (λ t. step-Makes CleanExprs (at close) _ (λ closed.
            if-Makes CleanExprs closed (give (expr e no_exprs)) _
              (give-Makes CleanExprs (expr e no_exprs) (g, tt))
              (bind-Makes CleanExprs CleanExprs more _ km
                (λ es gs. give-Makes CleanExprs (expr e es) (g, gs))))))
          (give-Makes CleanExprs (expr e no_exprs) (g, tt))))

  pub key-Makes : Makes {F = F} IsOrdinary checked_key
  unfolding Told
  key-Makes = step-Makes IsOrdinary cur _ (λ t.
      if-Makes IsOrdinary (is_key_kind t.kind) _ (refuse ErrorCode.script_syntax)
        (step-Makes IsOrdinary next _ (λ u. named t.text (is_proto_key t.text) refl))
        (refuse-Makes IsOrdinary ErrorCode.script_syntax))
    where
      named :
          (key : String) (b : Bool)
          → is_proto_key key ≡ b
          → Makes {F = F} IsOrdinary (if b then forbid else give key)
      named key true e = λ ts. tt
      named key false e = give-Makes IsOrdinary key e

  pub props-Makes :
      (more : P F (Props F)) → Makes CleanProps more → Makes CleanProps (props_rule expression more)
  unfolding props_rule AdmitsExpr
  props-Makes more km = bind-Makes IsOrdinary CleanProps checked_key _ key-Makes (λ key ordinary.
      step-Makes CleanProps (expect ":") _ (λ colon.
        bind-Makes CleanExpr CleanProps expression _ e-ok (λ v g.
          step-Makes CleanProps (at ",") _ (λ comma.
            if-Makes CleanProps comma _ (give (prop key v no_props))
              (step-Makes CleanProps next _ (λ t. step-Makes CleanProps (at "}") _ (λ closed.
                if-Makes CleanProps closed (give (prop key v no_props)) _
                  (give-Makes CleanProps (prop key v no_props) (ordinary, g, tt))
                  (bind-Makes CleanProps CleanProps more _ km
                    (λ ps gs. give-Makes CleanProps (prop key v ps) (ordinary, g, gs))))))
              (give-Makes CleanProps (prop key v no_props) (ordinary, g, tt))))))

  pub object-Makes :
      (props : P F (Props F)) → Makes CleanProps props → Makes CleanExpr (object_rule props)
  unfolding AdmitsExpr
  object-Makes props kp = step-Makes CleanExpr next _ (λ t.
      step-Makes CleanExpr (at "}") _ (λ closed.
        if-Makes CleanExpr closed _ _
          (step-Makes CleanExpr next _ (λ u. give-Makes CleanExpr (object_of no_props) tt))
          (bind-Makes CleanProps CleanExpr props _ kp (λ ps g.
            step-Makes CleanExpr (expect "}") _ (λ u. give-Makes CleanExpr (object_of ps) g)))))

  pub bracketed-Makes :
      (close : String) (items : P F (Exprs F))
      → Makes CleanExprs items
      → Makes CleanExprs (bracketed close items)
  unfolding AdmitsExpr
  bracketed-Makes close items ki = step-Makes CleanExprs (at close) _ (λ closed.
      if-Makes CleanExprs closed _ _
        (step-Makes CleanExprs next _ (λ u. give-Makes CleanExprs no_exprs tt))
        (bind-Makes CleanExprs CleanExprs items _ ki
          (λ es g. step-Makes CleanExprs (expect close) _ (λ u. give-Makes CleanExprs es g))))

  pub call-Makes :
      (name : String) (items : P F (Exprs F))
      → Makes CleanExprs items
      → Makes CleanExpr (call_rule name items)
  unfolding AdmitsExpr
  call-Makes name items ki = step-Makes CleanExpr (at "(") _ (λ here.
      if-Makes CleanExpr here _ (give (ident name))
        (step-Makes CleanExpr (expect "(") _ (λ t.
          bind-Makes CleanExprs CleanExpr (bracketed ")" items) _ (bracketed-Makes ")" items ki)
            (λ es g. give-Makes CleanExpr (call name es) (tt, g))))
        (give-Makes CleanExpr (ident name) tt))

  pub bracket-Makes :
      (t : Token F) (items : String → P F (Exprs F)) (props : P F (Props F))
      → ((close : String) → Makes CleanExprs (items close))
      → Makes CleanProps props
      → Makes CleanExpr (bracket_at t expression items props)
  unfolding AdmitsExpr
  bracket-Makes t items props ki kp =
      if-Makes CleanExpr (same t.text "(") _ _
        (step-Makes CleanExpr next _ (λ u.
          bind-Makes CleanExpr CleanExpr expression _ e-ok
            (λ e g. step-Makes CleanExpr (expect ")") _ (λ v. give-Makes CleanExpr e g))))
        (if-Makes CleanExpr (same t.text "[") _ _
          (step-Makes CleanExpr next _ (λ u.
            bind-Makes CleanExprs CleanExpr (bracketed "]" (items "]")) _
              (bracketed-Makes "]" (items "]") (ki "]"))
              (λ es g. give-Makes CleanExpr (array_of es) g)))
          (if-Makes CleanExpr (same t.text "{") _ _ (object-Makes props kp) (
            if-Makes CleanExpr (is_ident_kind t.kind) _ (refuse ErrorCode.script_syntax)
              (step-Makes CleanExpr next _ (λ u. call-Makes t.text (items ")") (ki ")")))
              (refuse-Makes CleanExpr ErrorCode.script_syntax))))

  pub primary-Makes :
      (t : Token F) (items : String → P F (Exprs F)) (props : P F (Props F))
      → ((close : String) → Makes CleanExprs (items close))
      → Makes CleanProps props
      → Makes CleanExpr (primary_at t expression items props)
  unfolding primary_at AdmitsExpr
  primary-Makes t items props ki kp = go (literal_of t) (literal-IsClean t)
    where
      go :
          (o : Option (Json F))
          → InSome o
          → Makes CleanExpr (elim o as (λ _. P F (Expr F)) [
            | none ↦ bracket_at t expression items props
            | some v ↦ next >> give (lit v)
          ])
      go none g = bracket-Makes t items props ki kp
      go (some v) g = step-Makes CleanExpr next _ (λ u. give-Makes CleanExpr (lit v) g)
