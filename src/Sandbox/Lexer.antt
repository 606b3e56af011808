-- ===== src/Sandbox/Lexer.antt =====
-- internal/sandbox/lexer.go: the tokens of a script. The lexer goes through the characters of a
-- UTF-8 text; all characters that it looks for are ASCII, so that a walk over the bytes stops at the
-- same places. Lines and columns are for display and are left out.
pub mod Shorter
pub mod Total
use Prim.Native.Char.{Char, code}
use Prim.Native.String.{String as Text}
use ic.Prelude.{
  ℕ, zero, suc, String, Bool, true, false, not, ◌&&◌, ◌||◌, List, [], ◌∷◌, ◌++◌, Option, none, some,
  ◌==◌, any, contains, between, leb, ltb, len, length, same, concat, if◌then◌else◌,
}
use ic.Prelude.Int.{ℤ, pos, ltb_ℤ}
use ic.Platform.Float.{Float64}
use ic.Sandbox.Limits.{Fault, fault, ErrorCode}
use ic.Sandbox.Chars.{
  is_digit, is_ident_start, is_ident_part, is_blank_char, Chars, head_is, chars_of, text_of_chars,
  span, tail_of, after_comment, is_e, in_number, number_chars, char_text, escape, prepend, escaped,
  read_string,
}
use ic.Sandbox.Values.{Answer, value, failed, fails}

pub data TokenKind : Type 0 where
  tok_eof tok_number tok_string tok_ident tok_punct tok_keyword : TokenKind

pub record Token (F : Type 0) : Type 0 where
  pub kind : TokenKind
  pub text : String
  pub num : F

abbrev pub keywords : List String
keywords =
    "var" ∷ "if" ∷ "else" ∷ "return" ∷ "true" ∷ "false" ∷ "null" ∷ "undefined" ∷ "in" ∷ "typeof"
    ∷ []

abbrev pub forbidden_idents : List String
forbidden_idents =
    "eval" ∷ "Function" ∷ "constructor" ∷ "__proto__" ∷ "prototype" ∷ "globalThis" ∷ "window"
    ∷ "process" ∷ "require" ∷ "import" ∷ "this" ∷ "class" ∷ "new" ∷ "delete" ∷ "setTimeout"
    ∷ "Promise" ∷ "Reflect" ∷ "Proxy" ∷ "Symbol" ∷ "arguments" ∷ "caller" ∷ "callee" ∷ "toString"
    ∷ "valueOf" ∷ "hasOwnProperty" ∷ "__defineGetter__" ∷ []

unfoldable pub is_keyword : String → Bool
is_keyword t = any (same t) keywords

unfoldable pub is_forbidden_word : String → Bool
is_forbidden_word t = any (same t) forbidden_idents

abbrev pub max_source_bytes : ℕ
max_source_bytes = 65536

abbrev pub operators : List String
operators = "==" ∷ "!=" ∷ "<=" ∷ ">=" ∷ "&&" ∷ "||" ∷ "??" ∷ "=>" ∷ "+=" ∷ "-=" ∷ "**" ∷ []

-- src[i : i+2], where there are two characters.
abbrev pub two_chars : Char → Chars → String
two_chars c [] = ""
two_chars c (d ∷ cs) = concat (char_text c) (char_text d)

abbrev pub kind_of_word : String → TokenKind
kind_of_word t = if is_keyword t then TokenKind.tok_keyword else TokenKind.tok_ident

-- What a step of the lexer leaves: a token, or nothing for what is skipped, and the rest.
abbrev pub Lexed : Type 0 → Type 0
Lexed F = Answer (Option (Token F) × Chars)

module _ {F : Type 0} ⦃fl : Float64 F⦄ where
  abbrev token : TokenKind → String → Token F
  token kind text = record { kind = kind; text = text; num = fl.num (pos 0) }

  abbrev pub skip : Chars → Lexed F
  skip rest = value (none, rest)

  abbrev pub skip_comment : Option Chars → Lexed F
  skip_comment none = fails ErrorCode.script_syntax
  skip_comment (some rest) = skip rest

  abbrev pub number_of : String → Option F → Chars → Lexed F
  number_of text none rest = fails ErrorCode.script_syntax
  number_of text (some f) rest =
      value (some (record { kind = TokenKind.tok_number; text = text; num = f }), rest)

  abbrev pub lex_number : Chars × Chars → Lexed F
  lex_number (taken, rest) =
      number_of (text_of_chars taken) (fl.parse_float (text_of_chars taken)) rest

  abbrev pub lex_string : ℤ → Answer (String × Chars) → Lexed F
  lex_string max_string (failed f) = failed f
  lex_string max_string (value (t, rest)) =
      if ltb_ℤ max_string (pos (len t))
      then fails ErrorCode.script_limit
      else value (some (token TokenKind.tok_string t), rest)

  abbrev pub word : String → Chars → Lexed F
  word t rest =
      if is_forbidden_word t
      then fails ErrorCode.script_forbidden
      else value (some (token (kind_of_word t) t), rest)

  abbrev pub lex_word : Chars × Chars → Lexed F
  lex_word (taken, rest) = word (text_of_chars taken) rest

  abbrev pub lex_operator : Char → Chars → Lexed F
  lex_operator c cs =
      if any (same (two_chars c cs)) operators
      then value (some (token TokenKind.tok_punct (two_chars c cs)), tail_of cs)
      else if contains "+-*/%<>=!?:,.;(){}[]&|" (char_text c)
      then value (some (token TokenKind.tok_punct (char_text c)), cs)
      else fails ErrorCode.script_syntax

  -- One turn of the loop, at a character.
  unfoldable pub lex_step : ℤ → Char → Chars → Lexed F
  lex_step max_string c cs =
      if is_blank_char (code c)
      then skip cs
      else if (code c == 47) && head_is (λ d. d == 47) cs
      then skip (span (λ d. not (d == 10)) cs).1
      else if (code c == 47) && head_is (λ d. d == 42) cs
      then skip_comment (after_comment (tail_of cs))
      else if is_digit (code c) || ((code c == 46) && head_is is_digit cs)
      then lex_number (number_chars false (c ∷ cs))
      else if (code c == 39) || (code c == 34) || (code c == 96)
      then lex_string max_string (read_string (code c) cs)
      else if is_ident_start (code c)
      then lex_word (span is_ident_part (c ∷ cs))
      else lex_operator c cs

-- The end of the fuel is a result that the code does not have.
pub data LexResult (F : Type 0) : Type 0 where
  tokens : List (Token F) → LexResult F
  lex_failed : Fault → LexResult F
  lex_out_of_fuel : LexResult F

abbrev pub add_token : {F : Type 0} → Option (Token F) → LexResult F → LexResult F
add_token none r = r
add_token (some t) (tokens ts) = tokens (t ∷ ts)
add_token (some t) (lex_failed f) = lex_failed f
add_token (some t) lex_out_of_fuel = lex_out_of_fuel

abbrev pub go_on : {F : Type 0} → Lexed F → (Chars → LexResult F) → LexResult F
go_on (failed f) next = lex_failed f
go_on (value (t, rest)) next = add_token t (next rest)

abbrev pub eof : {F : Type 0} ⦃fl : Float64 F⦄ → Token F
eof ⦃fl⦄ = record { kind = TokenKind.tok_eof; text = ""; num = fl.num (pos 0) }

module _ {F : Type 0} ⦃fl : Float64 F⦄ (max_string : ℤ) where
  -- Each turn takes a character at least.
  unfoldable pub lex_loop : ℕ → Chars → LexResult F
  lex_loop zero cs = lex_out_of_fuel
  lex_loop (suc fuel) [] = tokens (eof ∷ [])
  lex_loop (suc fuel) (c ∷ cs) = go_on (lex_step max_string c cs) (lex_loop fuel)

  -- `lex`
  unfoldable pub lex : String → LexResult F
  unfolding chars_of
  lex src =
      if ltb max_source_bytes (len src)
      then lex_failed (fault ErrorCode.script_limit)
      else lex_loop (suc (length (chars_of src))) (chars_of src)
