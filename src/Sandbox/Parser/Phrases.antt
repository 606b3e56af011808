-- ===== src/Sandbox/Parser/Phrases.antt =====
-- internal/sandbox/parser.go: the rules of expressions, from the parsers of their parts.
use ic.Prelude.{
  ℕ, suc, String, Bool, true, false, ◌&&◌, ◌||◌, List, [], ◌∷◌, Option, none, some, same, ltb,
  if◌then◌else◌,
}
use ic.Graph.Document.{Json, null, bool, float, text}
use ic.Sandbox.Limits.{fault, ErrorCode}
use ic.Sandbox.Values.{is_proto_key}
use ic.Sandbox.Syntax.{
  UnaryOp, BinaryOp, Expr, lit, ident, member, index, unary, binary, ternary, call, array_of,
  object_of, Exprs, no_exprs, expr, Props, no_props, prop,
}
use ic.Sandbox.Lexer.{Token, TokenKind}
use ic.Sandbox.Parser.Rules.{
  parse_failed, P, ◌>>=◌, ◌>>◌, give, cur, next, refuse, is_string, is_punct, is_keyword_kind,
  is_ident_kind, is_number_kind, at, expect,
}

module _ {F : Type 0} where
  unfoldable pub ternary_rule : P F (Expr F) → P F (Expr F) → P F (Expr F)
  ternary_rule condition branch = condition >>= λ c. at "?" >>= λ here.
      if here
      then next >> branch >>= (λ t. expect ":" >> branch >>= λ o. give (ternary c t o))
      else give c

-- The operators with their priorities.
abbrev precedence : List (String × BinaryOp × ℕ)
precedence =
    ("??", BinaryOp.coalesce, 1)
    ∷ ("||", BinaryOp.or, 2)
    ∷ ("&&", BinaryOp.and, 3)
    ∷ ("==", BinaryOp.equal, 4)
    ∷ ("!=", BinaryOp.unequal, 4)
    ∷ ("<", BinaryOp.lt, 5)
    ∷ (">", BinaryOp.gt, 5)
    ∷ ("<=", BinaryOp.le, 5)
    ∷ (">=", BinaryOp.ge, 5)
    ∷ ("+", BinaryOp.add, 6)
    ∷ ("-", BinaryOp.sub, 6)
    ∷ ("*", BinaryOp.mul, 7)
    ∷ ("/", BinaryOp.div, 7)
    ∷ ("%", BinaryOp.mod_op, 7)
    ∷ ("**", BinaryOp.power, 8)
    ∷ []

abbrev pub find_op : String → List (String × BinaryOp × ℕ) → Option (BinaryOp × ℕ)
find_op s [] = none
find_op s ((name, op, level) ∷ table) =
    let found = find_op s table in if same s name then some (op, level) else found

abbrev pub is_key_kind : TokenKind → Bool
is_key_kind kind =
    is_ident_kind kind || is_keyword_kind kind || is_string kind || is_number_kind kind

-- The operator that a token stands for, with its priority.
unfoldable pub binary_of : {F : Type 0} → Token F → Option (BinaryOp × ℕ)
binary_of t = if is_punct t.kind then find_op t.text precedence else none

unfoldable pub unary_of : {F : Type 0} → Token F → Option UnaryOp
unary_of t =
    if is_punct t.kind && same t.text "!"
    then some UnaryOp.bang
    else if is_punct t.kind && same t.text "-"
    then some UnaryOp.neg
    else if is_punct t.kind && same t.text "+"
    then some UnaryOp.plus
    else if is_keyword_kind t.kind && same t.text "typeof"
    then some UnaryOp.typeof
    else none

module _ {F : Type 0} where
  abbrev pub peek_bin_op : P F (Option (BinaryOp × ℕ))
  peek_bin_op = cur >>= λ t. give (binary_of t)

  -- A turn of the loop of `parseBinary`.
  unfoldable pub binary_at :
      Option (BinaryOp × ℕ)
      → ℕ
      → Expr F
      → (ℕ → P F (Expr F))
      → (Expr F → P F (Expr F))
      → P F (Expr F)
  binary_at none min left right more = give left
  binary_at (some (op, level)) min left right more =
      if ltb level min
      then give left
      else next >> right (suc level) >>= λ r. more (binary op left r)

  unfoldable pub unary_at : Option UnaryOp → P F (Expr F) → P F (Expr F) → P F (Expr F)
  unary_at none operand postfix = postfix
  unary_at (some op) operand postfix = next >> operand >>= λ e. give (unary op e)

  abbrev pub member_rule : Expr F → (Expr F → P F (Expr F)) → P F (Expr F)
  member_rule e more = cur >>= λ t.
      if is_ident_kind t.kind || is_keyword_kind t.kind
      then next >> more (member e t.text)
      else refuse ErrorCode.script_syntax

  -- A turn of the loop of `parsePostfix`.
  unfoldable pub postfix_at : Expr F → P F (Expr F) → (Expr F → P F (Expr F)) → P F (Expr F)
  postfix_at e expression more = at "." >>= λ dot. at "[" >>= λ bracket.
      if dot
      then next >> member_rule e more
      else if bracket
      then next >> expression >>= (λ i. expect "]" >> more (index e i))
      else give e

  -- The items up to the closing token, which a comma may precede.
  unfoldable pub items_rule : String → P F (Expr F) → P F (Exprs F) → P F (Exprs F)
  items_rule close expression more = expression >>= λ e. at "," >>= λ comma.
      if comma
      then next
        >> at close
        >>= (λ closed. if closed then give (expr e no_exprs) else more >>= (λ es. give (expr e es)))
      else give (expr e no_exprs)

  abbrev pub bracketed : String → P F (Exprs F) → P F (Exprs F)
  bracketed close items = at close >>= λ closed.
      if closed then next >> give no_exprs else items >>= (λ es. expect close >> give es)

  -- The line of this error is that of the key, which was read before.
  abbrev pub forbid : P F String
  forbid ts = parse_failed (fault ErrorCode.script_forbidden)

  abbrev pub checked_key : P F String
  checked_key = cur >>= λ t.
      if is_key_kind t.kind
      then next >> (if is_proto_key t.text then forbid else give t.text)
      else refuse ErrorCode.script_syntax

  -- A property and those after it.
  unfoldable pub props_rule : P F (Expr F) → P F (Props F) → P F (Props F)
  props_rule expression more = checked_key >>= λ key. expect ":" >> expression >>= λ v.
      at "," >>= λ comma.
      if comma
      then next >> at "}" >>= (λ closed.
        if closed then give (prop key v no_props) else more >>= (λ ps. give (prop key v ps)))
      else give (prop key v no_props)

  abbrev pub object_rule : P F (Props F) → P F (Expr F)
  object_rule props = next >> at "}" >>= λ closed.
      if closed
      then next >> give (object_of no_props)
      else props >>= (λ ps. expect "}" >> give (object_of ps))

  abbrev pub call_rule : String → P F (Exprs F) → P F (Expr F)
  call_rule name args = at "(" >>= λ here.
      if here
      then expect "(" >> bracketed ")" args >>= (λ es. give (call name es))
      else give (ident name)

  abbrev pub word_literal : String → Option (Json F)
  word_literal s =
      if same s "true"
      then some (bool true)
      else if same s "false"
      then some (bool false)
      else if same s "null" || same s "undefined"
      then some null
      else none

  abbrev pub literal_of : Token F → Option (Json F)
  literal_of t =
      if is_number_kind t.kind
      then some (float t.num)
      else if is_string t.kind
      then some (text t.text)
      else if is_keyword_kind t.kind
      then word_literal t.text
      else none

  abbrev pub bracket_at :
      Token F → P F (Expr F) → (String → P F (Exprs F)) → P F (Props F) → P F (Expr F)
  bracket_at t expression items props =
      if same t.text "("
      then next >> expression >>= (λ e. expect ")" >> give e)
      else if same t.text "["
      then next >> bracketed "]" (items "]") >>= (λ es. give (array_of es))
      else if same t.text "{"
      then object_rule props
      else if is_ident_kind t.kind
      then next >> call_rule t.text (items ")")
      else refuse ErrorCode.script_syntax

  -- `parsePrimary`, `parseArgs`, `parseArray` and `parseObject`
  unfoldable pub primary_at :
      Token F → P F (Expr F) → (String → P F (Exprs F)) → P F (Props F) → P F (Expr F)
  primary_at t expression items props = elim (literal_of t) [
    | none ↦ bracket_at t expression items props
    | some v ↦ next >> give (lit v)
  ]
