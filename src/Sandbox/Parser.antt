-- ===== src/Sandbox/Parser.antt =====
-- internal/sandbox/parser.go: the recursive descent over the tokens of a script. What a rule makes of
-- its parts stands in a function of its own, which takes the parts' parsers. The tokens that are left
-- stand for the position, and the depth is an argument, since every rule leaves as it entered.
pub mod Rules
pub mod Phrases
pub mod Makes
pub mod Clean
pub mod Sound
use ic.Prelude.{ℕ, zero, suc, ◌*◌, String, Bool, true, false, List, [], ◌∷◌, length}
use ic.Prelude.Int.{ℤ}
use ic.Platform.Float.{Float64}
use ic.Sandbox.Limits.{Fault, fault, ErrorCode}
use ic.Sandbox.Syntax.{Expr, Exprs, Props, Stmt, Stmts}
use ic.Sandbox.Lexer.{Token, TokenKind, LexResult, tokens, lex_failed, lex_out_of_fuel, lex}
use ic.Sandbox.Parser.Rules.{
  Parsed, parsed, parse_failed, past_the_end, parse_out_of_fuel, P, after_part, ◌>>=◌, ◌>>◌, cur,
  refuse, give, is_eof, enter, statements_at, statement_at, if_rule,
}
use ic.Sandbox.Parser.Phrases.{
  ternary_rule, binary_at, peek_bin_op, unary_of, unary_at, postfix_at, primary_at, items_rule,
  props_rule,
}

module _ {F : Type 0} where
  unfoldable mutual
    pub parse_statements : ℕ → ℕ → Bool → P F (Stmts F)
    parse_statements zero d nested = λ ts. parse_out_of_fuel
    parse_statements (suc f) d nested = cur >>= λ t.
        statements_at t nested (λ ts. parse_statement f d ts) (λ ts. parse_statements f d nested ts)

    pub parse_statement : ℕ → ℕ → P F (Stmt F)
    parse_statement zero d = λ ts. parse_out_of_fuel
    parse_statement (suc f) d =
        cur >>= λ t. statement_at t (λ ts. parse_ternary f d ts) (λ ts. parse_if f d ts)

    pub parse_if : ℕ → ℕ → P F (Stmt F)
    parse_if zero d = λ ts. parse_out_of_fuel
    parse_if (suc f) d =
        if_rule (λ ts. parse_ternary f d ts) (λ ts. parse_statements f d true ts)
          (λ ts. parse_if f d ts)

    -- `parseExpression` and `parseTernary`
    pub parse_ternary : ℕ → ℕ → P F (Expr F)
    parse_ternary zero d = λ ts. parse_out_of_fuel
    parse_ternary (suc f) d =
        enter d λ deeper.
          ternary_rule (λ ts. parse_binary f deeper 0 ts) (λ ts. parse_ternary f deeper ts)

    pub parse_binary : ℕ → ℕ → ℕ → P F (Expr F)
    parse_binary zero d min = λ ts. parse_out_of_fuel
    parse_binary (suc f) d min =
        enter d
          λ deeper. (λ ts. parse_unary f deeper ts) >>= λ left ts. binary_loop f deeper min left ts

    pub binary_loop : ℕ → ℕ → ℕ → Expr F → P F (Expr F)
    binary_loop zero d min left = λ ts. parse_out_of_fuel
    binary_loop (suc f) d min left = peek_bin_op >>= λ op.
        binary_at op min left (λ p ts. parse_binary f d p ts) (λ e ts. binary_loop f d min e ts)

    pub parse_unary : ℕ → ℕ → P F (Expr F)
    parse_unary zero d = λ ts. parse_out_of_fuel
    parse_unary (suc f) d =
        cur >>= λ t. unary_at (unary_of t) (λ ts. parse_unary f d ts) (λ ts. parse_postfix f d ts)

    pub parse_postfix : ℕ → ℕ → P F (Expr F)
    parse_postfix zero d = λ ts. parse_out_of_fuel
    parse_postfix (suc f) d = (λ ts. parse_primary f d ts) >>= λ e ts. postfix_loop f d e ts

    pub postfix_loop : ℕ → ℕ → Expr F → P F (Expr F)
    postfix_loop zero d e = λ ts. parse_out_of_fuel
    postfix_loop (suc f) d e =
        postfix_at e (λ ts. parse_ternary f d ts) (λ e' ts. postfix_loop f d e' ts)

    pub parse_primary : ℕ → ℕ → P F (Expr F)
    parse_primary zero d = λ ts. parse_out_of_fuel
    parse_primary (suc f) d = enter d λ deeper. cur >>= λ t.
        primary_at t (λ ts. parse_ternary f deeper ts) (λ close ts. parse_items f deeper close ts)
          (λ ts. parse_props f deeper ts)

    -- The loop of `parseArgs` and `parseArray`
    pub parse_items : ℕ → ℕ → String → P F (Exprs F)
    parse_items zero d close = λ ts. parse_out_of_fuel
    parse_items (suc f) d close =
        items_rule close (λ ts. parse_ternary f d ts) (λ ts. parse_items f d close ts)

    -- The loop of `parseObject`
    pub parse_props : ℕ → ℕ → P F (Props F)
    parse_props zero d = λ ts. parse_out_of_fuel
    parse_props (suc f) d = props_rule (λ ts. parse_ternary f d ts) (λ ts. parse_props f d ts)

  -- The fuel of a parse, by the number of its tokens.
  abbrev pub parse_fuel : List (Token F) → ℕ
  parse_fuel ts = 16 * suc (length ts)

  abbrev whole : Stmts F → P F (Stmts F)
  whole body =
      cur >>= λ t. elim (is_eof t) [ true ↦ give body | false ↦ refuse ErrorCode.script_syntax ]

  unfoldable pub parse_tokens : List (Token F) → Parsed F (Stmts F)
  parse_tokens ts = (parse_statements (parse_fuel ts) 0 false >>= whole) ts

module _ {F : Type 0} ⦃fl : Float64 F⦄ where
  abbrev pub parse_lexed : LexResult F → Parsed F (Stmts F)
  parse_lexed (tokens ts) = parse_tokens ts
  parse_lexed (lex_failed f) = parse_failed f
  parse_lexed lex_out_of_fuel = parse_out_of_fuel

  -- `parse`
  unfoldable pub parse : String → ℤ → Parsed F (Stmts F)
  parse src max_string = parse_lexed (lex max_string src)
