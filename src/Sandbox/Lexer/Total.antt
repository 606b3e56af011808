-- ===== src/Sandbox/Lexer/Total.antt =====
-- internal/sandbox/lexer.go: the lexer ends on every text, and what its tokens may be.
use Prim.Native.Char.{Char, code}
use ic.Prelude.{
  ℕ, zero, suc, ◌≤◌, ◌<◌, ◌≡◌, refl, String, Bool, true, false, not, List, [], ◌∷◌, Option, none,
  some, ◌==◌, any, same, len, length, arith, if◌then◌else◌, ltb, contains, ◌||◌, ◌&&◌, Bool-cases,
  inl, inr,
}
use ic.Prelude.Int.{ℤ, pos, ltb_ℤ}
use ic.Platform.Float.{Float64}
use ic.Sandbox.Limits.{fault, ErrorCode}
use ic.Sandbox.Values.{Answer, value, failed, fails}
use ic.Sandbox.Chars.{
  Chars, span, after_comment, number_chars, read_string, chars_of, tail_of, is_ident_part,
  is_ident_start, is_digit, head_is, char_text,
}
use ic.Sandbox.Lexer.{
  is_forbidden_word, is_keyword, Token, TokenKind, LexResult, tokens, lex_failed, lex_out_of_fuel,
  Lexed, lex_step, lex_loop, lex, add_token, go_on, max_source_bytes, lex_string, lex_operator,
  skip_comment, number_of, word, eof, two_chars, operators, kind_of_word,
}
use ic.Sandbox.Logic.Defs.{if-all}
use ic.Sandbox.Lexer.Shorter.{
  span-le, tail_of-le, after_comment-le, ReadsLess, read_string-ReadsLess, number_chars-lt,
  span_word-lt,
}

-- What a token may be: a name or a keyword is not forbidden, and a text is not too long.
abbrev pub FineText : ℤ → TokenKind → String → Type 0
FineText max TokenKind.tok_ident t = is_forbidden_word t ≡ false
FineText max TokenKind.tok_keyword t = is_forbidden_word t ≡ false
FineText max TokenKind.tok_string t = ltb_ℤ max (pos (len t)) ≡ false
FineText max _ t = Unit

abbrev pub Fine : {F : Type 0} → ℤ → Token F → Type 0
Fine max t = FineText max t.kind t.text

FineOrNone : {F : Type 0} → ℤ → Option (Token F) → Type 0
FineOrNone max none = Unit
FineOrNone max (some t) = Fine max t

-- A turn of the lexer leaves at most so many characters, and a token that is fine.
Turns : {F : Type 0} → ℤ → ℕ → Lexed F → Type 0
Turns max n (failed f) = Unit
Turns max n (value (t, rest)) = (length rest ≤ n) × FineOrNone max t

module _ (F : Type 0) (max : ℤ) (n : ℕ) where
  refused-Turns : (c : ErrorCode) → Turns {F = F} max n (fails c)
  unfolding Turns
  refused-Turns c = tt

  skip-Turns : (rest : Chars) → length rest ≤ n → Turns {F = F} max n (value (none, rest))
  unfolding Turns FineOrNone
  skip-Turns rest h = (h, tt)

  token-Turns :
      (t : Token F) (rest : Chars)
      → length rest ≤ n
      → Fine max t
      → Turns max n (value (some t, rest))
  unfolding Turns FineOrNone
  token-Turns t rest h fine = (h, fine)

module _ (F : Type 0) ⦃fl : Float64 F⦄ (max : ℤ) (n : ℕ) where
  comment-Turns :
      (o : Option Chars)
      → ((rest : Chars) → o ≡ some rest → length rest ≤ n)
      → Turns {F = F} max n (skip_comment o)
  unfolding Turns FineOrNone
  comment-Turns none h = tt
  comment-Turns (some rest) h = (h rest refl, tt)

  number-Turns :
      (t : String) (o : Option F) (rest : Chars)
      → length rest ≤ n
      → Turns max n (number_of t o rest)
  unfolding Turns FineOrNone
  number-Turns t none rest h = tt
  number-Turns t (some f) rest h = (h, tt)

  string-Turns :
      (r : Answer (String × Chars)) → ReadsLess n r → Turns {F = F} max n (lex_string max r)
  unfolding Turns FineOrNone ReadsLess
  string-Turns (failed f) h = tt
  string-Turns (value (t, rest)) h = elim (Bool-cases (ltb_ℤ max (pos (len t)))) [
    | inl e ↦ rw e tt
    | inr e ↦ rw e (h, e)
  ]

  word-Turns : (t : String) (rest : Chars) → length rest ≤ n → Turns {F = F} max n (word t rest)
  word-Turns t rest h = go (is_forbidden_word t) refl
    where
      go :
          (b : Bool)
          → is_forbidden_word t ≡ b
          → Turns {F = F} max n (
              if b
              then fails ErrorCode.script_forbidden
              else value
                  (some (record { kind = kind_of_word t; text = t; num = fl.num (pos 0) }), rest))
      go true e = refused-Turns F max n _
      go false e = token-Turns F max n _ rest h (
          if-all (λ k. FineText max k t) (is_keyword t) TokenKind.tok_keyword TokenKind.tok_ident e
            e)

  operator-Turns : (c : Char) (cs : Chars) → length cs ≤ n → Turns {F = F} max n (lex_operator c cs)
  operator-Turns c cs h =
      if-all (Turns max n) (any (same (two_chars c cs)) operators) _ _
        (token-Turns F max n _ (tail_of cs) (omega (arith, tail_of-le cs)) tt)
        (if-all (Turns max n) (contains "+-*/%<>=!?:,.;(){}[]&|" (char_text c)) _ _
          (token-Turns F max n _ cs h tt) (refused-Turns F max n ErrorCode.script_syntax))

if-lem :
    {A : Type 0} (P : A → Type 0) (b : Bool) (x y : A)
    → (b ≡ true → P x)
    → P y
    → P (if b then x else y)
if-lem P true x y p q = p refl
if-lem P false x y p q = q

module _ (F : Type 0) ⦃fl : Float64 F⦄ (max : ℤ) where
  step-Turns : (c : Char) (cs : Chars) → Turns {F = F} max (length cs) (lex_step max c cs)
  unfolding lex_step
  step-Turns c cs =
      let n = length cs in
      let T = Turns {F = F} max n in
      if-all T _ _ _ (skip-Turns F max n cs (omega arith)) (
        if-all T _ _ _ (skip-Turns F max n (span (λ d. not (d == 10)) cs).1 (span-le _ cs)) (
          if-all T _ _ _
            (comment-Turns F max n (after_comment (tail_of cs))
              (λ rest h. omega (arith, after_comment-le (tail_of cs) rest h, tail_of-le cs)))
            (if-lem T (is_digit (code c) || ((code c == 46) && head_is is_digit cs)) _ _
              (λ e.
                number-Turns F max n _ _ (number_chars false (c ∷ cs)).1 (number_chars-lt c cs e))
              (if-all T _ _ _
                (string-Turns F max n (read_string (code c) cs) (read_string-ReadsLess (code c) cs))
                (if-lem T (is_ident_start (code c)) _ _
                  (λ e. word-Turns F max n _ (span is_ident_part (c ∷ cs)).1 (span_word-lt c cs e))
                  (operator-Turns F max n c cs (omega arith)))))))

-- The lexer ends, and where it gives tokens they are fine and the last is the end of the script.
pub data EndsFine {F : Type 0} (max : ℤ) : List (Token F) → Type 0 where
  the_end : (t : Token F) → t.kind ≡ TokenKind.tok_eof → EndsFine max (t ∷ [])
  one_more :
      (t : Token F) (ts : List (Token F)) → Fine max t → EndsFine max ts → EndsFine max (t ∷ ts)

abbrev pub Lexes : {F : Type 0} → ℤ → LexResult F → Type 0
Lexes max (tokens ts) = EndsFine max ts
Lexes max (lex_failed f) = Unit
Lexes max lex_out_of_fuel = ⊥

add_token-Lexes :
    {F : Type 0} (max : ℤ) (t : Option (Token F)) (r : LexResult F)
    → FineOrNone max t
    → Lexes max r
    → Lexes max (add_token t r)
unfolding FineOrNone
add_token-Lexes max none r fine h = h
add_token-Lexes max (some t) (tokens ts) fine h = EndsFine.one_more t ts fine h
add_token-Lexes max (some t) (lex_failed f) fine h = h
add_token-Lexes max (some t) lex_out_of_fuel fine h = h

module _ (F : Type 0) ⦃fl : Float64 F⦄ (max : ℤ) where
  lex_loop-Lexes :
      (fuel : ℕ) (cs : Chars) → length cs < fuel → Lexes {F = F} max (lex_loop max fuel cs)
  unfolding lex_loop Turns
  lex_loop-Lexes zero cs h = absurd (omega arith)
  lex_loop-Lexes (suc fuel) [] h = EndsFine.the_end eof refl
  lex_loop-Lexes (suc fuel) (c ∷ cs) h =
      turned (lex_step max c cs) (step-Turns F max c cs)
        (λ rest le. lex_loop-Lexes fuel rest (omega arith))
    where
      turned :
          (r : Lexed F)
          → Turns max (length cs) r
          → ((rest : Chars) → length rest ≤ length cs → Lexes {F = F} max (lex_loop max fuel rest))
          → Lexes {F = F} max (go_on r (lex_loop max fuel))
      turned (failed f) turn go = tt
      turned (value (t, rest)) turn go =
          add_token-Lexes max t (lex_loop max fuel rest) turn.1 (go rest turn.0)

  -- The lexer ends on every source. Where it gives tokens, the last is the end of the script, no name
  -- and no keyword is one of the forbidden ones, and no literal text is longer than the limit.
  pub lex_lem : (src : String) → Lexes {F = F} max (lex max src)
  unfolding lex
  lex_lem src =
      if-all (Lexes max) (ltb max_source_bytes (len src))
        (lex_failed (fault ErrorCode.script_limit)) _ tt
        (lex_loop-Lexes _ (chars_of src) (omega arith))
