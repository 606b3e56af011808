-- ===== src/Graph/Undo/Nodes.antt =====
-- The reverse operations of the operations on one node and on the viewport
-- (internal/graph/op_apply.go).
use ic.Prelude.{
  ℕ, ◌≡◌, ◌≢◌, String, len, false, some, arith, same, same_iff, ◌∙◌, Option-cases, inl, inr, ◌≤◌,
  if◌then◌else◌,
}
use ic.Prelude.Dict.{insert, lookup-insert, insert-insert_self, insert_self}
use ic.Platform.Errors.{ok}
use ic.Platform.Float.{Float64}
use ic.Graph.Document.{Document, Node, Rect, Viewport, find_node}
use ic.Graph.Limits.{max_title_len}
use ic.Graph.Geometry.{validate_rect, check_coord, validate_viewport}
use ic.Graph.Schema.{PluginSchemas}
use ic.Graph.Operation.{
  Op, Inverse, one, MoveNode, ResizeNode, SetTitle, move_node, resize_node, set_title, set_viewport,
}
use ic.Graph.Apply.Nodes.{
  moved_rect, resized_height, apply_move_node, apply_resize_node, apply_set_title,
}
use ic.Graph.Apply.Settings.{apply_set_viewport}
use ic.Graph.Apply.Dispatch.{apply_one}
use ic.Graph.Bounds.Maps.{AllInBounds}

module _ {F : Type 0} ⦃fl : Float64 F⦄ where
  -- The operations whose reverse is meant here, with what `doc` must meet.
  pub data IsUndoable (doc : Document F) : Op F → Type 0 where
    move : (p : MoveNode F) → IsUndoable doc (move_node p)
    resize : (p : ResizeNode F) → IsUndoable doc (resize_node p)
    title :
        (p : SetTitle) (n : Node F)
        → find_node doc p.id ≡ some n
        → n.title ≢ ""
        → len n.title ≤ max_title_len
        → IsUndoable doc (set_title p)
    viewport :
        (v : Viewport F) → validate_viewport doc.viewport ≡ ok tt → IsUndoable doc (set_viewport v)

  -- Putting a node back as it was gives the same map.
  restore :
      (id : String) (n m : Node F) (doc : Document F)
      → find_node doc id ≡ some n
      → insert id n (insert id m doc.nodes) ≡ doc.nodes
  restore id n m doc found = insert-insert_self id n m doc.nodes ∙ insert_self id n doc.nodes found

  check_coord_of_rect :
      (r : Rect F) → validate_rect r ≡ ok tt → (check_coord r.x ≡ ok tt) × (check_coord r.y ≡ ok tt)
  unfolding validate_rect check_coord
  check_coord_of_rect r h = (ground arith, ground arith)

  module _ (plugins : PluginSchemas) (actor : String) (now : ℕ) where
    -- The reverse is one operation, and it is accepted and leads back to `doc`.
    abbrev pub Undoes : Document F → Document F → Inverse F → Type 0
    Undoes doc d i =
        (back : Op F) × (again : Inverse F) × (i ≡ one back)
        × (apply_one plugins actor now d back ≡ ok (doc, again))

    undo_move :
        (doc d : Document F) (i : Inverse F) (p : MoveNode F)
        → AllInBounds doc.nodes
        → apply_move_node doc p ≡ ok (d, i)
        → Undoes doc d i
    unfolding apply_move_node apply_one
    undo_move doc d i p all h = elim (Option-cases (find_node doc p.id)) [
      | inl gone ↦ absurd (ground arith)
      | inr (n, found) ↦
          let n' : Node F = record n { rect = moved_rect n.rect p } in
          let valid = all p.id n found in
          let coords = check_coord_of_rect n.rect valid in
          let e : d.nodes ≡ insert p.id n' doc.nodes = ground arith in
          let there : find_node d p.id ≡ some n' =
            rw e (ground (arith, lookup-insert p.id p.id n' doc.nodes, same_iff p.id p.id)) in
          let back : MoveNode F = record { id = p.id; x = n.rect.x; y = n.rect.y; delta = false } in
          let restored : insert p.id n d.nodes ≡ doc.nodes = rw e (restore p.id n n' doc found) in
          (
            move_node back,
            one (move_node (record { id = p.id; x = n'.rect.x; y = n'.rect.y; delta = false })),
            ground arith,
            ground arith,
          )
    ]

    undo_resize :
        (doc d : Document F) (i : Inverse F) (p : ResizeNode F)
        → AllInBounds doc.nodes
        → apply_resize_node doc p ≡ ok (d, i)
        → Undoes doc d i
    unfolding apply_resize_node apply_one
    undo_resize doc d i p all h = elim (Option-cases (find_node doc p.id)) [
      | inl gone ↦ absurd (ground arith)
      | inr (n, found) ↦
          let rect : Rect F = record n.rect { w = p.w; h = resized_height n.rect p } in
          let n' : Node F = record n { rect = rect } in
          let valid = all p.id n found in
          let e : d.nodes ≡ insert p.id n' doc.nodes = ground arith in
          let there : find_node d p.id ≡ some n' =
            rw e (ground (arith, lookup-insert p.id p.id n' doc.nodes, same_iff p.id p.id)) in
          let restored : insert p.id n d.nodes ≡ doc.nodes = rw e (restore p.id n n' doc found) in
          (
            resize_node (record { id = p.id; w = n.rect.w; h = n.rect.h; keep_aspect = false }),
            one (resize_node (record { id = p.id; w = rect.w; h = rect.h; keep_aspect = false })),
            ground arith,
            ground arith,
          )
    ]

    undo_title :
        (doc d : Document F) (i : Inverse F) (p : SetTitle) (n : Node F)
        → find_node doc p.id ≡ some n
        → n.title ≢ ""
        → len n.title ≤ max_title_len
        → apply_set_title doc p ≡ ok (d, i)
        → Undoes doc d i
    unfolding apply_set_title apply_one
    undo_title doc d i p n found named short h =
        let title : String = if same p.title "" then n.title else p.title in
        let n' : Node F = record n { title = title } in
        let e : d.nodes ≡ insert p.id n' doc.nodes = ground arith in
        let there : find_node d p.id ≡ some n' =
          rw e (ground (arith, lookup-insert p.id p.id n' doc.nodes, same_iff p.id p.id)) in
        let restored : insert p.id n d.nodes ≡ doc.nodes = rw e (restore p.id n n' doc found) in
        (
          set_title (record { id = p.id; title = n.title }),
          one (set_title (record { id = p.id; title = title })),
          ground arith,
          ground (arith, same_iff n.title ""),
        )

    undo_viewport :
        (doc d : Document F) (i : Inverse F) (v : Viewport F)
        → validate_viewport doc.viewport ≡ ok tt
        → apply_set_viewport doc v ≡ ok (d, i)
        → Undoes doc d i
    unfolding apply_set_viewport apply_one
    undo_viewport doc d i v valid h =
        (set_viewport doc.viewport, one (set_viewport v), ground arith, ground arith)

    -- The reverse of a move, of a resize, of a viewport and of a new title is accepted and gives the
    -- document back exactly, if the rectangles of the nodes are valid, and so are the old viewport
    -- and the old title, which must not be empty.
    pub apply_one-Undoes :
        (doc d : Document F) (i : Inverse F) (op : Op F)
        → AllInBounds doc.nodes
        → IsUndoable doc op
        → apply_one plugins actor now doc op ≡ ok (d, i)
        → Undoes doc d i
    unfolding apply_one
    apply_one-Undoes doc d i op all (move p) h = undo_move doc d i p all h
    apply_one-Undoes doc d i op all (resize p) h = undo_resize doc d i p all h
    apply_one-Undoes doc d i op all (title p n found named short) h =
        undo_title doc d i p n found named short h
    apply_one-Undoes doc d i op all (viewport v valid) h = undo_viewport doc d i v valid h
