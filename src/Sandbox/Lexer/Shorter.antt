-- ===== src/Sandbox/Lexer/Shorter.antt =====
-- internal/sandbox/lexer.go: the readers of the lexer leave no more than they are given.
use Prim.Native.Char.{Char, code}
use ic.Prelude.{
  ℕ, ◌≤◌, ◌≡◌, String, Bool, true, false, not, [], ◌∷◌, Option, none, some, ◌==◌, length, arith,
  ◌||◌, ◌&&◌,
}
use ic.Sandbox.Limits.{ErrorCode}
use ic.Sandbox.Values.{Answer, value, failed, fails}
use ic.Sandbox.Chars.{
  Chars, span, after_comment, number_chars, read_string, tail_of, is_ident_part, is_ident_start,
  is_digit, head_is, is_e, escape, escaped, prepend, char_text,
}
use ic.Sandbox.Logic.Defs.{if-all}

pub span-le : (p : ℕ → Bool) (cs : Chars) → length (span p cs).1 ≤ length cs
unfolding span
span-le p [] = omega arith
span-le p (c ∷ cs) = ground (arith, span-le p cs)

pub number_chars-le : (e : Bool) (cs : Chars) → length (number_chars e cs).1 ≤ length cs
unfolding number_chars
number_chars-le e [] = omega arith
number_chars-le e (c ∷ cs) = ground (arith, number_chars-le (is_e (code c)) cs)

pub tail_of-le : (cs : Chars) → length (tail_of cs) ≤ length cs
tail_of-le [] = omega arith
tail_of-le (c ∷ cs) = omega arith

pub after_comment-le : (cs rest : Chars) → after_comment cs ≡ some rest → length rest ≤ length cs
unfolding after_comment
after_comment-le [] rest h = absurd (ground arith)
after_comment-le (c ∷ cs) rest h = ground (arith, tail_of-le cs, after_comment-le cs rest)

-- A text that was read leaves no more than it was given.
unfoldable pub ReadsLess : ℕ → Answer (String × Chars) → Type 0
ReadsLess n (value (t, rest)) = length rest ≤ n
ReadsLess n (failed f) = Unit

pub prepend-ReadsLess :
    (n m : ℕ) (s : String) (r : Answer (String × Chars))
    → n ≤ m
    → ReadsLess n r
    → ReadsLess m (prepend s r)
unfolding ReadsLess
prepend-ReadsLess n m s (value (t, rest)) le h = omega arith
prepend-ReadsLess n m s (failed f) le h = tt

pub escaped-ReadsLess :
    (n m : ℕ) (o : Option String) (r : Answer (String × Chars))
    → n ≤ m
    → ReadsLess n r
    → ReadsLess m (escaped o r)
unfolding ReadsLess
escaped-ReadsLess n m none r le h = tt
escaped-ReadsLess n m (some s) r le h = prepend-ReadsLess n m s r le h

pub fails-ReadsLess : (n : ℕ) (c : ErrorCode) → ReadsLess n (fails c)
unfolding ReadsLess
fails-ReadsLess n c = tt

pub value-ReadsLess :
    (n : ℕ) (t : String) (rest : Chars) → length rest ≤ n → ReadsLess n (value (t, rest))
unfolding ReadsLess
value-ReadsLess n t rest h = h

pub read_string-ReadsLess : (q : ℕ) (cs : Chars) → ReadsLess (length cs) (read_string q cs)
unfolding read_string
read_string-ReadsLess q [] = fails-ReadsLess 0 _
read_string-ReadsLess q (c ∷ []) =
    if-all (ReadsLess 1) (code c == q) _ _ (value-ReadsLess 1 "" [] (omega arith))
      (fails-ReadsLess 1 _)
read_string-ReadsLess q (c ∷ d ∷ cs) =
    let n = length (c ∷ d ∷ cs) in
    if-all (ReadsLess n) _ _ _
      (escaped-ReadsLess (length cs) n (escape d) _ (omega arith) (read_string-ReadsLess q cs))
      (if-all (ReadsLess n) _ _ _ (value-ReadsLess n "" (d ∷ cs) (omega arith)) (
        if-all (ReadsLess n) ((code c == 10) && not (q == 96)) _ _
          (fails-ReadsLess n ErrorCode.script_syntax)
          (if-all (ReadsLess n) ((q == 96) && (code c == 36) && (code d == 123)) _ _
            (fails-ReadsLess n ErrorCode.script_forbidden)
            (prepend-ReadsLess (length (d ∷ cs)) n (char_text c) _ (omega arith)
              (read_string-ReadsLess q (d ∷ cs))))))

pub number_chars-lt :
    (c : Char) (cs : Chars)
    → is_digit (code c) || ((code c == 46) && head_is is_digit cs) ≡ true
    → length (number_chars false (c ∷ cs)).1 ≤ length cs
unfolding number_chars
number_chars-lt c cs h = ground (arith, number_chars-le (is_e (code c)) cs)

pub span_word-lt :
    (c : Char) (cs : Chars)
    → is_ident_start (code c) ≡ true
    → length (span is_ident_part (c ∷ cs)).1 ≤ length cs
unfolding span
span_word-lt c cs h = ground (arith, span-le is_ident_part cs)
