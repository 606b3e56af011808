-- ===== src/Graph/Bounds/Maps.antt =====
-- Maps of nodes and their rectangles, for the operations of internal/graph/op_apply.go.
use ic.Prelude.{◌≡◌, inl, inr, String, List, [], ◌∷◌, some, arith, same, Option-cases, Bool-cases}
use ic.Prelude.Dict.{lookup, insert, delete, lookup-insert, lookup-delete}
use ic.Platform.Errors.{ok}
use ic.Platform.Float.{Float64}
use ic.Graph.Document.{Document, Node}
use ic.Graph.Geometry.{validate_rect}
use ic.Graph.Apply.Nodes.{reparent}
use ic.Graph.Apply.Groups.{delete_nodes}

module _ {F : Type 0} ⦃fl : Float64 F⦄ where
  abbrev pub InBounds : Node F → Type 0
  InBounds n = validate_rect n.rect ≡ ok tt

  -- Every node that the map holds has a valid rectangle.
  abbrev pub AllInBounds : List (String × Node F) → Type 0
  AllInBounds m = (id : String) (n : Node F) → lookup id m ≡ some n → InBounds n

  pub AllInBounds-insert :
      (id : String) (n : Node F) (m : List (String × Node F))
      → InBounds n
      → AllInBounds m
      → AllInBounds (insert id n m)
  AllInBounds-insert id n m b all j x h = elim (Bool-cases (same id j)) [
    | inl hit ↦ let e : n ≡ x = ground (arith, lookup-insert id j n m) in rw (← e) b
    | inr miss ↦ all j x (ground (arith, lookup-insert id j n m))
  ]

  pub AllInBounds-delete :
      (id : String) (m : List (String × Node F)) → AllInBounds m → AllInBounds (delete id m)
  AllInBounds-delete id m all j x h = all j x (ground (arith, lookup-delete id j m))

  pub AllInBounds-reparent :
      (parent : String) (ids : List String) (m : List (String × Node F))
      → AllInBounds m
      → AllInBounds (reparent parent ids m)
  unfolding reparent
  AllInBounds-reparent parent [] m all = all
  AllInBounds-reparent parent (id ∷ ids) m all = elim (Option-cases (lookup id m)) [
    | inl gone ↦ rw (gone, reparent) (AllInBounds-reparent parent ids m all)
    | inr (n, found) ↦
        rw (found, reparent)
          (AllInBounds-reparent parent ids (insert id (record n { parent_id = parent }) m)
            (AllInBounds-insert id _ m (all id n found) all))
  ]

  pub AllInBounds-delete_nodes :
      (ids : List String) (m : List (String × Node F))
      → AllInBounds m
      → AllInBounds (delete_nodes ids m)
  unfolding delete_nodes
  AllInBounds-delete_nodes [] m all = all
  AllInBounds-delete_nodes (id ∷ ids) m all =
      AllInBounds-delete_nodes ids (delete id m) (AllInBounds-delete id m all)

  -- The operation wrote one node, whose rectangle is valid.
  pub record Writes (doc d : Document F) : Type 0 where
    pub id : String
    pub node : Node F
    pub fits : InBounds node
    pub written : d.nodes ≡ insert id node doc.nodes

  pub AllInBounds-of_Writes :
      (doc d : Document F) → Writes doc d → AllInBounds doc.nodes → AllInBounds d.nodes
  AllInBounds-of_Writes doc d w all =
      rw w.written (AllInBounds-insert w.id w.node doc.nodes w.fits all)
