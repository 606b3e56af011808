-- ===== src/Sandbox/Parser/Rules.antt =====
-- internal/sandbox/parser.go: the steps of the parser, and the rules of statements from the
-- parsers of their parts.
use ic.Prelude.{
  ℕ, ◌+◌, String, Bool, true, false, ◌&&◌, ◌||◌, not, List, [], ◌∷◌, Option, none, some, same, ltb,
  if◌then◌else◌,
}
use ic.Graph.Document.{null}
use ic.Sandbox.Limits.{Fault, fault, ErrorCode}
use ic.Sandbox.Syntax.{
  Expr, lit, Stmt, assign, if_stmt, return_stmt, expr_stmt, Stmts, no_stmts, stmt,
}
use ic.Sandbox.Lexer.{Token, TokenKind}

-- A tree with the tokens that are left, a fault, a read past the last token, which is a panic of the
-- code, or the end of the fuel, which the code does not have.
pub data Parsed (F A : Type 0) : Type 0 where
  parsed : A → List (Token F) → Parsed F A
  parse_failed : Fault → Parsed F A
  past_the_end : Parsed F A
  parse_out_of_fuel : Parsed F A

abbrev pub P : Type 0 → Type 0 → Type 0
P F A = List (Token F) → Parsed F A

abbrev pub after_part : {F A B : Type 0} → Parsed F A → (A → P F B) → Parsed F B
after_part (parsed a ts) next = next a ts
after_part (parse_failed f) next = parse_failed f
after_part past_the_end next = past_the_end
after_part parse_out_of_fuel next = parse_out_of_fuel

infixr 5 ◌>>=◌ ◌>>◌
abbrev pub ◌>>=◌ : {F A B : Type 0} → P F A → (A → P F B) → P F B
(m >>= next) ts = after_part (m ts) next

abbrev pub ◌>>◌ : {F A B : Type 0} → P F A → P F B → P F B
m >> rest = m >>= λ _. rest

abbrev pub give : {F A : Type 0} → A → P F A
give a ts = parsed a ts

-- `cur` and `next`
abbrev pub cur : {F : Type 0} → P F (Token F)
cur [] = past_the_end
cur (t ∷ ts) = parsed t (t ∷ ts)

abbrev pub next : {F : Type 0} → P F (Token F)
next [] = past_the_end
next (t ∷ ts) = parsed t ts

-- p.toks[p.pos+1]
abbrev pub peek_next : {F : Type 0} → P F (Token F)
peek_next (t ∷ u ∷ ts) = parsed u (t ∷ u ∷ ts)
peek_next _ = past_the_end

-- An error, which looks up the line of the token.
abbrev pub refuse : {F A : Type 0} → ErrorCode → P F A
refuse c [] = past_the_end
refuse c (t ∷ ts) = parse_failed (fault c)

abbrev pub is_string : TokenKind → Bool
is_string TokenKind.tok_string = true
is_string _ = false

abbrev pub is_punct : TokenKind → Bool
is_punct TokenKind.tok_punct = true
is_punct _ = false

abbrev pub is_keyword_kind : TokenKind → Bool
is_keyword_kind TokenKind.tok_keyword = true
is_keyword_kind _ = false

abbrev pub is_ident_kind : TokenKind → Bool
is_ident_kind TokenKind.tok_ident = true
is_ident_kind _ = false

abbrev pub is_number_kind : TokenKind → Bool
is_number_kind TokenKind.tok_number = true
is_number_kind _ = false

abbrev is_eof_kind : TokenKind → Bool
is_eof_kind TokenKind.tok_eof = true
is_eof_kind _ = false

module _ {F : Type 0} where
  abbrev pub is_eof : Token F → Bool
  is_eof t = is_eof_kind t.kind

  abbrev pub is_word : String → Token F → Bool
  is_word w t = same t.text w && is_keyword_kind t.kind

  abbrev pub at : String → P F Bool
  at s = cur >>= λ t. give (same t.text s && not (is_string t.kind))

  abbrev pub expect : String → P F (Token F)
  expect s = at s >>= λ here. if here then next else refuse ErrorCode.script_syntax

  -- `enter`, to the depth that the parts are at.
  abbrev pub enter : {A : Type 0} → ℕ → (ℕ → P F A) → P F A
  enter d m = if ltb 32 (d + 1) then refuse ErrorCode.script_limit else m (d + 1)

  -- `if p.at(s) { p.next() }`
  abbrev pub skip_one : String → P F (Option (Token F))
  skip_one s = at s >>= λ here. if here then next >>= (λ t. give (some t)) else give none

  unfoldable pub statements_at : Token F → Bool → P F (Stmt F) → P F (Stmts F) → P F (Stmts F)
  statements_at t nested one more =
      if is_eof t
      then if nested then refuse ErrorCode.script_syntax else give no_stmts
      else if nested && same t.text "}"
      then give no_stmts
      else if same t.text ";"
      then next >> more
      else one >>= λ s. skip_one ";" >> more >>= λ ss. give (stmt s ss)

  abbrev pub assign_rule : String → P F (Expr F) → P F (Stmt F)
  assign_rule name expression = expression >>= λ e. give (assign name e)

  -- `expectAssignTarget` and `parseAssignAfterName`
  abbrev pub var_rule : P F (Expr F) → P F (Stmt F)
  var_rule expression = cur >>= λ t.
      if is_ident_kind t.kind
      then next >> expect "=" >> assign_rule t.text expression
      else refuse ErrorCode.script_syntax

  abbrev pub return_rule : P F (Expr F) → P F (Stmt F)
  return_rule expression = at ";" >>= λ semicolon. at "}" >>= λ brace. cur >>= λ t.
      if semicolon || brace || is_eof t
      then give (return_stmt (lit null))
      else expression >>= λ e. give (return_stmt e)

  abbrev pub expression_rule : P F (Expr F) → P F (Stmt F)
  expression_rule expression = expression >>= λ e. give (expr_stmt e)

  unfoldable pub statement_at : Token F → P F (Expr F) → P F (Stmt F) → P F (Stmt F)
  statement_at t expression if_statement =
      if is_word "var" t
      then next >> var_rule expression
      else if is_word "if" t
      then if_statement
      else if is_word "return" t
      then next >> return_rule expression
      else if is_ident_kind t.kind
      then peek_next >>= (λ u.
        if same u.text "="
        then next >> next >> assign_rule t.text expression
        else expression_rule expression)
      else expression_rule expression

  abbrev pub block_rule : P F (Stmts F) → P F (Stmts F)
  block_rule body = expect "{" >> body >>= λ ss. expect "}" >> give ss

  abbrev pub else_rule : P F (Stmts F) → P F (Stmt F) → P F (Stmts F)
  else_rule body if_statement = at "if" >>= λ again.
      if again then if_statement >>= (λ s. give (stmt s no_stmts)) else block_rule body

  abbrev pub otherwise_rule : P F (Stmts F) → P F (Stmt F) → P F (Stmts F)
  otherwise_rule body if_statement =
      at "else" >>= λ here. if here then next >> else_rule body if_statement else give no_stmts

  -- `parseIf`
  unfoldable pub if_rule : P F (Expr F) → P F (Stmts F) → P F (Stmt F) → P F (Stmt F)
  if_rule expression body if_statement = next >> expect "(" >> expression >>= λ c.
      expect ")" >> block_rule body >>= λ t.
      otherwise_rule body if_statement >>= λ o. give (if_stmt c t o)
