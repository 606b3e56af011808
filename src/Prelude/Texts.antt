-- ===== src/Prelude/Texts.antt =====
-- Texts: their order, the sort of Go's `sort.Strings`, and patterns of ASCII characters.
use Prim.Native.Nat.{ℕ, zero, suc, ◌/◌, ◌%◌}
use Prim.Native.Char.{code}
use Prim.Native.String.{String, ◌++◌ as ◌⧺◌, len, find, compare as compare_text}
use text.Mathlib.Text.{is_le}
use mathlib.Core.Path.{◌≡◌, refl}
use mathlib.Core.Logic.{◌⊎◌, inl, inr, ◌↔◌}
use mathlib.Core.Bool.{Bool, true, false, ◌&&◌, ◌||◌}
use mathlib.Core.List.{List, [], ◌∷◌}
use native.Mathlib.Omega.{arith}
use ic.Prelude.Tests.{leb, if◌then◌else◌}
use ic.Prelude.Lists.{In, AllDistinct, length}
use ic.Prelude.Same.{◌==◌}

-- The code points of a text.
abbrev pub codes : String → List ℕ
codes String.[] = []
codes (String.◌∷◌ c s) = code c ∷ codes s

-- s + t
abbrev pub concat : String → String → String
concat s t = s ⧺ t

-- strings.Contains(s, t)
abbrev pub contains : String → String → Bool
contains s t = leb (find s t) (len s)

-- strings.HasPrefix(s, p)
abbrev pub has_prefix : String → String → Bool
has_prefix s p = find s p == 0

unfoldable pub text_le : String → String → Bool
text_le s t = is_le (compare_text s t)

unfoldable pub insert_sorted : String → List String → List String
insert_sorted x [] = x ∷ []
insert_sorted x (y ∷ ys) = if text_le x y then x ∷ y ∷ ys else y ∷ insert_sorted x ys

-- `sort.Strings`, as an insertion sort.
unfoldable pub sort_strings : List String → List String
unfolding insert_sorted text_le
sort_strings [] = []
sort_strings (x ∷ xs) = insert_sorted x (sort_strings xs)

In-insert_sorted :
    (a x : String) (ys : List String) → In a (insert_sorted x ys) ↔ ((a ≡ x) ⊎ In a ys)
unfolding insert_sorted
In-insert_sorted a x ys = (to ys, from ys)
  where
    to : (l : List String) → In a (insert_sorted x l) → (a ≡ x) ⊎ In a l
    to [] m = ground arith
    to (y ∷ l) m = ground (arith, to l)

    from : (l : List String) → (a ≡ x) ⊎ In a l → In a (insert_sorted x l)
    from [] m = ground arith
    from (y ∷ l) m = ground (arith, from l)

-- Sorting keeps the members.
pub In-sort_strings : (a : String) (xs : List String) → In a (sort_strings xs) ↔ In a xs
unfolding sort_strings
In-sort_strings a xs = (to xs, from xs)
  where
    to : (l : List String) → In a (sort_strings l) → In a l
    to [] m = m
    to (y ∷ l) m = elim ((In-insert_sorted a y (sort_strings l)).0 m) [
      | inl e ↦ inl e
      | inr r ↦ inr (to l r)
    ]

    from : (l : List String) → In a l → In a (sort_strings l)
    from [] m = m
    from (y ∷ l) (inl e) = (In-insert_sorted a y (sort_strings l)).1 (inl e)
    from (y ∷ l) (inr r) = (In-insert_sorted a y (sort_strings l)).1 (inr (from l r))

length-insert_sorted :
    (x : String) (ys : List String) → length (insert_sorted x ys) ≡ suc (length ys)
unfolding insert_sorted
length-insert_sorted x [] = refl
length-insert_sorted x (y ∷ ys) = ground (arith, length-insert_sorted x ys)

pub length-sort_strings : (xs : List String) → length (sort_strings xs) ≡ length xs
unfolding sort_strings
length-sort_strings [] = refl
length-sort_strings (x ∷ xs) =
    ground (arith, length-insert_sorted x (sort_strings xs), length-sort_strings xs)

AllDistinct-insert_sorted :
    (x : String) (ys : List String) → AllDistinct ys → ¬ In x ys → AllDistinct (insert_sorted x ys)
unfolding insert_sorted
AllDistinct-insert_sorted x [] d n = ((λ m. m), tt)
AllDistinct-insert_sorted x (y ∷ ys) (fresh, d) n =
    ground (arith, AllDistinct-insert_sorted x ys d, In-insert_sorted y x ys)

-- Sorting makes nothing stand twice.
pub AllDistinct-sort_strings : (xs : List String) → AllDistinct xs → AllDistinct (sort_strings xs)
unfolding sort_strings
AllDistinct-sort_strings [] d = d
AllDistinct-sort_strings (x ∷ xs) (fresh, d) =
    AllDistinct-insert_sorted x (sort_strings xs) (AllDistinct-sort_strings xs d)
      (λ m. fresh ((In-sort_strings x xs).0 m))

abbrev pub between : ℕ → ℕ → ℕ → Bool
between lo hi c = leb lo c && leb c hi

abbrev pub every : (ℕ → Bool) → List ℕ → Bool
every p [] = true
every p (c ∷ cs) = p c && every p cs

abbrev any_of : ℕ → List ℕ → Bool
any_of c [] = false
any_of c (d ∷ ds) = c == d || any_of c ds

-- unicode.IsSpace
abbrev pub is_space : ℕ → Bool
is_space c =
    leb 9 c && leb c 13
    || leb 0x2000 c && leb c 0x200a
    || any_of c (32 ∷ 0x85 ∷ 0xa0 ∷ 0x1680 ∷ 0x2028 ∷ 0x2029 ∷ 0x202f ∷ 0x205f ∷ 0x3000 ∷ [])

trim_left : String → String
trim_left String.[] = String.[]
trim_left (String.◌∷◌ c s) =
    let rest = trim_left s in if is_space (code c) then rest else String.◌∷◌ c s

-- `rest` with the space at its end cut off
trim_right : String → String
trim_right String.[] = String.[]
trim_right (String.◌∷◌ c s) =
    let rest = trim_right s in
    elim rest [
      | String.[] ↦ if is_space (code c) then String.[] else String.◌∷◌ c String.[]
      | String.◌∷◌ d t ↦ String.◌∷◌ c (String.◌∷◌ d t)
    ]

-- strings.TrimSpace(s)
unfoldable pub trim_space : String → String
unfolding trim_left trim_right
trim_space s = trim_right (trim_left s)

trims : trim_space "  image.edit\n" ≡ "image.edit"
unfolding trim_space
trims = refl

abbrev digit : ℕ → String
digit d =
    if d == 0
    then "0"
    else if d == 1
    then "1"
    else if d == 2
    then "2"
    else if d == 3
    then "3"
    else if d == 4
    then "4"
    else if d == 5
    then "5"
    else if d == 6
    then "6"
    else if d == 7
    then "7"
    else if d == 8
    then "8"
    else "9"

itoa_from : ℕ → ℕ → String → String
itoa_from zero n acc = acc
itoa_from (suc fuel) n acc =
    let rest = itoa_from fuel (n / 10) (concat (digit (n % 10)) acc) in if n == 0 then acc else rest

-- The decimal text of a number, of which there are at most as many digits as the number and one.
unfoldable pub itoa : ℕ → String
unfolding itoa_from
itoa n = if n == 0 then "0" else itoa_from n n ""

itoa_sample : itoa 1020 ≡ "1020"
unfolding itoa
itoa_sample = refl
