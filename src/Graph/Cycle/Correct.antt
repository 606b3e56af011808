-- ===== src/Graph/Cycle/Correct.antt =====
-- internal/graph/op_graph.go: `wouldCycle` answers whether the target lies above the source.
use ic.Prelude.{
  ◌≤◌, ◌<◌, ◌≡◌, refl, ◌↔◌, inl, inr, String, Bool, true, false, not, List, [], ◌∷◌, ◌++◌, some,
  arith, length, length-append, length-map, In, In-map, In-map_inv, In-append, In-sort_strings,
  length-keep-le, same, same_iff, Bool-cases, Option-cases,
}
use ic.Prelude.Dict.{lookup, keys, values, In-keys_of_lookup, In-values_of_lookup, length-values}
use ic.Graph.Document.{Document, Node, Edge, find_node, upstream_of, edges_where, edge_ids}
use ic.Graph.Cycle.{member, walk, above, sources, parent_of, walk_fuel, would_cycle}
use ic.Graph.Cycle.Walk.{Ascends, walk-Explored, walk-Hits, not-Ascends_of_Explored}
use ic.Graph.Cycle.Fuel.{unseen, walk-Ends}

-- An edge from `a` to `b` among the edges.
pub record Link (edges : List (String × Edge)) (a b : String) : Type 0 where
  pub key : String
  pub edge : Edge
  pub found : lookup key edges ≡ some edge
  pub starts : edge.from.node_id ≡ a
  pub ends : edge.to.node_id ≡ b

module _ {F : Type 0} (doc : Document F) where
  In-edges_where :
      (p : Edge → Bool) (e : Edge) (ids : List String)
      → In e (edges_where doc p ids)
      → (k : String) × (lookup k doc.edges ≡ some e) × (p e ≡ true)
  unfolding edges_where
  In-edges_where p e [] m = absurd m
  In-edges_where p e (id ∷ ids) m = elim (Option-cases (lookup id doc.edges)) [
    | inl gone ↦ In-edges_where p e ids (rw (gone, edges_where) at m)
    | inr (f, found) ↦ elim (Bool-cases (p f)) [
      | inl hit ↦ elim (rw (found, hit, edges_where) at m) [
        | inl q ↦ (id, rw q found, rw q hit)
        | inr r ↦ In-edges_where p e ids r
      ]
      | inr miss ↦ In-edges_where p e ids (rw (found, miss, edges_where) at m)
    ]
  ]

  edges_where-In :
      (p : Edge → Bool) (e : Edge) (k : String) (ids : List String)
      → lookup k doc.edges ≡ some e
      → p e ≡ true
      → In k ids
      → In e (edges_where doc p ids)
  unfolding edges_where
  edges_where-In p e k [] found hit m = absurd m
  edges_where-In p e k (id ∷ ids) found hit (inl q) = rw (← q, found, hit, edges_where) (inl refl)
  edges_where-In p e k (id ∷ ids) found hit (inr m) =
      let rest = edges_where-In p e k ids found hit m in ground arith

  pub In-above_of_Link : (a b : String) → Link doc.edges a b → In a (above doc b)
  unfolding above upstream_of edge_ids
  In-above_of_Link a b l =
      (In-append a (sources (upstream_of doc b)) (parent_of (find_node doc b))).1 (
        inl (
          rw (← l.starts) (
            In-map (λ (e : Edge). e.from.node_id) l.edge (upstream_of doc b)
              (edges_where-In (λ e. same e.to.node_id b) l.edge l.key (edge_ids doc) l.found
                ((same_iff _ _).1 l.ends)
                ((In-sort_strings l.key (keys doc.edges)).1
                  (In-keys_of_lookup l.key doc.edges l.edge l.found))))))

  -- Everything that lies above something: the sources of the edges, and the groups of the nodes.
  abbrev groups : List (String × Node F) → List String
  groups [] = []
  groups ((k, n) ∷ m) = parent_of (some n) ++ groups m

  abbrev universe : String → List String
  universe from = from ∷ sources (values doc.edges) ++ groups doc.nodes

  length-groups-le : (m : List (String × Node F)) → length (groups m) ≤ length m
  length-groups-le [] = omega arith
  length-groups-le ((k, n) ∷ m) = elim (Bool-cases (same n.parent_id "")) [
    | inl e ↦ rw e (omega (arith, length-groups-le m))
    | inr e ↦ rw e (omega (arith, length-groups-le m))
  ]

  length-universe-lt : (from : String) → length (universe from) < walk_fuel doc
  length-universe-lt from = omega (
    arith,
    length-append (sources (values doc.edges)) (groups doc.nodes),
    length-map (λ (e : Edge). e.from.node_id) (values doc.edges),
    length-values doc.edges,
    length-groups-le doc.nodes,
  )

  In-groups :
      (x y : String) (m : List (String × Node F)) → In y (parent_of (lookup x m)) → In y (groups m)
  In-groups x y [] h = absurd (unfold lookup in h)
  In-groups x y ((k, n) ∷ m) h = elim (Bool-cases (same k x)) [
    | inl e ↦
        (In-append y (parent_of (some n)) (groups m)).1
          (inl (unfold lookup in (rw (e, lookup) at h)))
    | inr e ↦
        (In-append y (parent_of (some n)) (groups m)).1
          (inr (In-groups x y m (unfold lookup in (rw (e, lookup) at h))))
  ]

  above-universe : (from x y : String) → In y (above doc x) → In y (universe from)
  unfolding above upstream_of
  above-universe from x y m =
      elim ((In-append y (sources (upstream_of doc x)) (parent_of (find_node doc x))).0 m) [
        | inl s ↦
            let (e, me, q) = In-map_inv (λ (e : Edge). e.from.node_id) y (upstream_of doc x) s in
            let (k, found, _) = In-edges_where (λ e. same e.to.node_id x) e (edge_ids doc) me in
            inr (
              (In-append y (sources (values doc.edges)) (groups doc.nodes)).1 (
                inl (
                  rw q (
                    In-map (λ (e : Edge). e.from.node_id) e (values doc.edges)
                      (In-values_of_lookup k doc.edges e found)))))
        | inr g ↦ inr (
            (In-append y (sources (values doc.edges)) (groups doc.nodes)).1
              (inr (In-groups x y doc.nodes g)))
      ]

  -- The fuel of `would_cycle` is enough.
  walk_total :
      (from to : String)
      → (b : Bool) × (t : List String) × (walk doc to (walk_fuel doc) from [] ≡ some (b, t))
  walk_total from to =
      let us = universe from in
      let small : unseen us [] < walk_fuel doc =
        omega (arith, length-universe-lt from, length-keep-le (λ u. not (member u [])) us) in
      let (b, t, e, _) =
        walk-Ends doc to us (above-universe from) (walk_fuel doc) from [] (inl refl) small in
      (b, t, e)

  -- `would_cycle` answers true exactly when the target is the source or lies above it, by edges and
  -- by groups.
  pub would_cycle_iff : (from to : String) → (would_cycle doc from to ≡ true) ↔ Ascends doc to from
  unfolding would_cycle
  would_cycle_iff from to =
      let (b, t, e) = walk_total from to in
      elim (Bool-cases b) [
        | inl hit ↦
            let found : walk doc to (walk_fuel doc) from [] ≡ some (true, t) = ground arith in
            (λ _. walk-Hits doc to (walk_fuel doc) from [] t found, λ _. ground arith)
        | inr miss ↦
            let ended : walk doc to (walk_fuel doc) from [] ≡ some (false, t) = ground arith in
            let (p, m) = walk-Explored doc to (walk_fuel doc) from [] t ended in
            (λ h. absurd (ground arith), λ a. absurd (not-Ascends_of_Explored doc to t p from m a))
      ]
