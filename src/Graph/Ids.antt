-- ===== src/Graph/Ids.antt =====
-- internal/graph/id.go and the node type names of doc.go: the regular expressions, as matchers over
-- the code points of a text.
use ic.Prelude.{
  refl, ℕ, ◌≡◌, String, len, Bool, true, false, ◌&&◌, ◌||◌, List, [], ◌∷◌, arith, ltb,
  if◌then◌else◌, ◌==◌, same, codes, between, every,
}
use ic.Graph.Limits.{max_id_len}

-- [A-Za-z0-9_.:-]
abbrev is_id_char : ℕ → Bool
is_id_char c =
    between b'A' b'Z' c
    || between b'a' b'z' c
    || between b'0' b'9' c
    || c == b'_'
    || c == b'.'
    || c == b':'
    || c == b'-'

-- ^[A-Za-z0-9_.:-]{1,64}$; the characters are ASCII, so the bytes that `len` counts are characters.
unfoldable pub valid_id : String → Bool
valid_id id = if same id "" || ltb max_id_len (len id) then false else every is_id_char (codes id)

abbrev is_lower : ℕ → Bool
is_lower = between b'a' b'z'

-- [a-z0-9-]
abbrev is_kebab : ℕ → Bool
is_kebab c = is_lower c || between b'0' b'9' c || c == b'-'

-- [a-z][a-z0-9-]*
matches_type : List ℕ → Bool
matches_type [] = false
matches_type (c ∷ cs) = is_lower c && every is_kebab cs

unfoldable pub valid_node_type_id : String → Bool
unfolding matches_type
valid_node_type_id t = matches_type (codes t)

-- [a-z0-9-]+
abbrev kebab_word : List ℕ → Bool
kebab_word [] = false
kebab_word (c ∷ cs) = every is_kebab (c ∷ cs)

-- [a-z0-9-]*:[a-z0-9-]+
plugin_tail : List ℕ → Bool
plugin_tail [] = false
plugin_tail (c ∷ cs) =
    let rest = plugin_tail cs in if c == b':' then kebab_word cs else is_kebab c && rest

-- [a-z][a-z0-9-]*:[a-z0-9-]+
matches_plugin : List ℕ → Bool
unfolding plugin_tail
matches_plugin [] = false
matches_plugin (c ∷ cs) = is_lower c && plugin_tail cs

unfoldable pub is_plugin_type : String → Bool
unfolding matches_plugin
is_plugin_type t = matches_plugin (codes t)

plugin_tail-every : (cs : List ℕ) → every is_kebab cs ≡ true → plugin_tail cs ≡ false
unfolding plugin_tail
plugin_tail-every [] h = ground arith
plugin_tail-every (c ∷ cs) h = ground (arith, plugin_tail-every cs)

matches_plugin_of_type : (cs : List ℕ) → matches_type cs ≡ true → matches_plugin cs ≡ false
unfolding matches_type matches_plugin
matches_plugin_of_type [] h = ground arith
matches_plugin_of_type (c ∷ cs) h = ground (arith, plugin_tail-every cs)

pub is_plugin_type_of_valid : (t : String) → valid_node_type_id t ≡ true → is_plugin_type t ≡ false
unfolding valid_node_type_id is_plugin_type
is_plugin_type_of_valid t h = matches_plugin_of_type (codes t) h

valid_id_sample : valid_id "node_1:a.b" ≡ true
unfolding valid_id same
valid_id_sample = refl
