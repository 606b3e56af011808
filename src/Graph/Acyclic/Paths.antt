-- ===== src/Graph/Acyclic/Paths.antt =====
-- Paths along the edges of a document, and what `wouldCycle` says of them.
use ic.Prelude.{◌≡◌, ◌⊎◌, inl, inr, String, List, arith, same-cases}
use ic.Prelude.Dict.{insert, lookup-insert, Sub}
use ic.Graph.Document.{Document, Edge}
use ic.Graph.Cycle.Walk.{Ascends, here, up}
use ic.Graph.Cycle.Correct.{Link, In-above_of_Link}

-- The nodes that can be reached from `a` along the edges.
pub data Reaches (edges : List (String × Edge)) (a : String) : String → Type 0 where
  stop : Reaches edges a a
  onward : {b c : String} → Reaches edges a b → Link edges b c → Reaches edges a c

abbrev pub IsAcyclic : List (String × Edge) → Type 0
IsAcyclic edges = (a b : String) → Reaches edges a b → Link edges b a → ⊥

Reaches-trans :
    {edges : List (String × Edge)} {a b c : String}
    → Reaches edges a b
    → Reaches edges b c
    → Reaches edges a c
Reaches-trans r stop = r
Reaches-trans r (onward s l) = onward (Reaches-trans r s) l

Link-mono : (m n : List (String × Edge)) {a b : String} → Sub m n → Link m a b → Link n a b
Link-mono m n sub l = record {
  key = l.key;
  edge = l.edge;
  found = sub l.key l.edge l.found;
  starts = l.starts;
  ends = l.ends;
}

Reaches-mono : (m n : List (String × Edge)) {a b : String} → Sub m n → Reaches m a b → Reaches n a b
Reaches-mono m n sub stop = stop
Reaches-mono m n sub (onward r l) = onward (Reaches-mono m n sub r) (Link-mono m n sub l)

-- With fewer edges there are fewer cycles.
pub IsAcyclic-mono : (m n : List (String × Edge)) → Sub m n → IsAcyclic n → IsAcyclic m
IsAcyclic-mono m n sub acyclic a b r l = acyclic a b (Reaches-mono m n sub r) (Link-mono m n sub l)

pub Ascends-of_Reaches :
    {F : Type 0} (doc : Document F) {a b : String} → Reaches doc.edges a b → Ascends doc a b
Ascends-of_Reaches doc stop = here
Ascends-of_Reaches doc (onward {b} {c} r l) =
    up (In-above_of_Link doc b c l) (Ascends-of_Reaches doc r)

module _ (edges : List (String × Edge)) (k : String) (e : Edge) where
  abbrev more : List (String × Edge)
  more = insert k e edges

  Link-cases :
      {a b : String} → Link more a b → Link edges a b ⊎ (e.from.node_id ≡ a) × (e.to.node_id ≡ b)
  Link-cases l = elim (same-cases k l.key) [
    | inl (hit, _) ↦
        let q : e ≡ l.edge = ground (arith, lookup-insert k l.key e edges, l.found) in
        inr (rw q l.starts, rw q l.ends)
    | inr (miss, _) ↦ inl (record {
      key = l.key;
      edge = l.edge;
      found = ground (arith, lookup-insert k l.key e edges, l.found);
      starts = l.starts;
      ends = l.ends;
    })
  ]

  -- A path over the new edge passes from its source to its target.
  Reaches-cases :
      {a b : String}
      → Reaches more a b
      → Reaches edges a b ⊎ Reaches edges a e.from.node_id × Reaches edges e.to.node_id b
  Reaches-cases stop = inl stop
  Reaches-cases (onward {b} {c} r l) = elim (Reaches-cases r) [
    | inl old ↦ elim (Link-cases l) [
      | inl old_link ↦ inl (onward old old_link)
      | inr (p, q) ↦ inr (rw p old, rw q stop)
    ]
    | inr (first, last) ↦ elim (Link-cases l) [
      | inl old_link ↦ inr (first, onward last old_link)
      | inr (p, q) ↦ inr (first, rw q stop)
    ]
  ]

  pub IsAcyclic-insert :
      IsAcyclic edges → (Reaches edges e.to.node_id e.from.node_id → ⊥) → IsAcyclic more
  IsAcyclic-insert acyclic free a b r l = elim (Reaches-cases r) [
    | inl old ↦ elim (Link-cases l) [
      | inl old_link ↦ acyclic a b old old_link
      | inr (p, q) ↦ free (rw (p, q) old)
    ]
    | inr (first, last) ↦ elim (Link-cases l) [
      | inl old_link ↦ free (Reaches-trans (onward last old_link) first)
      | inr (p, q) ↦ free (rw q first)
    ]
  ]
