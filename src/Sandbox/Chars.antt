-- ===== src/Sandbox/Chars.antt =====
-- internal/sandbox/lexer.go: the characters of a script, and the readers of comments, numbers and
-- texts.
use Prim.Native.Char.{Char, code}
use Prim.Native.String.{String as Text}
use ic.Prelude.{
  ℕ, String, Bool, false, not, ◌&&◌, ◌||◌, List, [], ◌∷◌, Option, none, some, ◌==◌, between, concat,
  if◌then◌else◌,
}
use ic.Sandbox.Limits.{ErrorCode}
use ic.Sandbox.Values.{Answer, value, failed, fails}

abbrev pub is_digit : ℕ → Bool
is_digit c = between 48 57 c

-- c|0x20 is a letter from a to z where c is one of either case.
abbrev pub is_ident_start : ℕ → Bool
is_ident_start c = c == 95 || c == 36 || between 65 90 c || between 97 122 c

abbrev pub is_ident_part : ℕ → Bool
is_ident_part c = is_ident_start c || is_digit c

abbrev pub is_blank_char : ℕ → Bool
is_blank_char c = c == 10 || c == 32 || c == 9 || c == 13

-- The characters from a place on.
abbrev pub Chars : Type 0
Chars = List Char

abbrev pub head_is : (ℕ → Bool) → Chars → Bool
head_is p [] = false
head_is p (c ∷ cs) = p (code c)

unfoldable pub chars_of : String → Chars
chars_of Text.[] = []
chars_of (Text.◌∷◌ c s) = c ∷ chars_of s

unfoldable pub text_of_chars : Chars → String
text_of_chars [] = ""
text_of_chars (c ∷ cs) = Text.◌∷◌ c (text_of_chars cs)

-- The characters up to the first that fails a test, and the rest.
unfoldable pub span : (ℕ → Bool) → Chars → Chars × Chars
span p [] = ([], [])
span p (c ∷ cs) =
    let (taken, rest) = span p cs in if p (code c) then (c ∷ taken, rest) else ([], c ∷ cs)

abbrev pub tail_of : Chars → Chars
tail_of [] = []
tail_of (c ∷ cs) = cs

-- What follows `*/`.
unfoldable pub after_comment : Chars → Option Chars
after_comment [] = none
after_comment (c ∷ cs) =
    let rest = after_comment cs in
    if (code c == 42) && head_is (λ d. d == 47) cs then some (tail_of cs) else rest

abbrev pub is_e : ℕ → Bool
is_e c = c == 101 || c == 69

abbrev pub in_number : Bool → ℕ → Bool
in_number after_e c = is_digit c || c == 46 || is_e c || ((c == 43 || c == 45) && after_e)

-- The characters of a number and the rest: a sign belongs to it after an exponent's e.
unfoldable pub number_chars : Bool → Chars → Chars × Chars
number_chars after_e [] = ([], [])
number_chars after_e (c ∷ cs) =
    let (taken, rest) = number_chars (is_e (code c)) cs in
    if in_number after_e (code c) then (c ∷ taken, rest) else ([], c ∷ cs)

abbrev pub char_text : Char → String
char_text c = Text.◌∷◌ c ""

-- What an escape stands for, by the character after the backslash.
abbrev pub escape : Char → Option String
escape c =
    if code c == 110
    then some "\n"
    else if code c == 116
    then some "\t"
    else if code c == 114
    then some "\r"
    else if (code c == 92) || (code c == 39) || (code c == 34) || (code c == 96) || (code c == 47)
    then some (char_text c)
    else none

abbrev pub prepend : String → Answer (String × Chars) → Answer (String × Chars)
prepend s (value (t, rest)) = value (concat s t, rest)
prepend s (failed f) = failed f

abbrev pub escaped : Option String → Answer (String × Chars) → Answer (String × Chars)
escaped none rest = fails ErrorCode.script_forbidden
escaped (some s) rest = prepend s rest

-- A literal text after its opening quote, and what follows the closing one.
unfoldable pub read_string : ℕ → Chars → Answer (String × Chars)
read_string q [] = fails ErrorCode.script_syntax
read_string q (c ∷ []) = if code c == q then value ("", []) else fails ErrorCode.script_syntax
read_string q (c ∷ d ∷ cs) =
    let plain = read_string q (d ∷ cs) in
    let beyond = read_string q cs in
    if code c == 92
    then escaped (escape d) beyond
    else if code c == q
    then value ("", d ∷ cs)
    else if (code c == 10) && not (q == 96)
    then fails ErrorCode.script_syntax
    else if (q == 96) && (code c == 36) && (code d == 123)
    then fails ErrorCode.script_forbidden
    else prepend (char_text c) plain
