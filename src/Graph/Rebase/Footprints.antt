-- ===== src/Graph/Rebase/Footprints.antt =====
-- internal/graph/service.go, `rebaseable`: what an operation writes, needs, creates and removes, and
-- what its marks say of it.
use ic.Prelude.{
  ◌≡◌, ◌⊎◌, refl, map, String, Bool, true, false, List, [], ◌∷◌, Option, none, some, In, inl, inr,
  ap, arith,
}
use ic.Graph.Operation.{
  Op, add_node, remove_node, move_node, resize_node, set_title, set_spec, set_state, add_edge,
  remove_edge, group, ungroup, set_viewport, set_settings, set_parent,
}
use ic.Graph.Rebase.{
  Touch, node, geom, spec, title, state, parent, global, has_touch, touches_of, conflicts,
}

abbrev pub IsGeometry : Touch → Type 0
IsGeometry t = (n : String) × (t ≡ geom n)

module _ {F : Type 0} where
  -- The fields of nodes that an operation overwrites: the place and size are one field.
  unfoldable pub overwrites : Op F → List Touch
  overwrites (move_node p) = geom p.id ∷ []
  overwrites (resize_node p) = geom p.id ∷ []
  overwrites (set_spec p) = spec p.id ∷ []
  overwrites (set_title p) = title p.id ∷ []
  overwrites (set_state p) = state p.id ∷ []
  overwrites (set_parent p) = parent p.id ∷ []
  overwrites (group p) = map parent p.node_ids
  overwrites _ = []

  -- An operation on the canvas as a whole.
  unfoldable pub is_global : Op F → Bool
  is_global (ungroup p) = true
  is_global (set_viewport p) = true
  is_global (set_settings p) = true
  is_global _ = false

  -- The node that an operation removes.
  unfoldable pub removes : Op F → Option String
  removes (remove_node p) = some p.id
  removes _ = none

  -- The node that an operation needs.
  unfoldable pub target : Op F → Option String
  target (remove_node p) = some p.id
  target (move_node p) = some p.id
  target (resize_node p) = some p.id
  target (set_spec p) = some p.id
  target (set_title p) = some p.id
  target (set_state p) = some p.id
  target (set_parent p) = some p.id
  target (add_edge e) = some e.to.node_id
  target _ = none

  -- The node that an operation creates or removes.
  unfoldable pub comes_or_goes : Op F → Option String
  comes_or_goes (add_node p) = some p.node.id
  comes_or_goes (remove_node p) = some p.id
  comes_or_goes _ = none

  pub overwrites-touches : (op : Op F) (t : Touch) → In t (overwrites op) → In t (touches_of op)
  unfolding overwrites touches_of
  overwrites-touches (set_spec p) t i = i
  overwrites-touches (set_title p) t i = i
  overwrites-touches (set_state p) t i = i
  overwrites-touches (set_parent p) t i = i
  overwrites-touches (add_node p) t i = absurd i
  overwrites-touches (remove_node p) t i = absurd i
  overwrites-touches (move_node p) t i = i
  overwrites-touches (resize_node p) t i = i
  overwrites-touches (add_edge p) t i = absurd i
  overwrites-touches (remove_edge p) t i = absurd i
  overwrites-touches (group p) t i = i
  overwrites-touches (ungroup p) t i = absurd i
  overwrites-touches (set_viewport p) t i = absurd i
  overwrites-touches (set_settings p) t i = absurd i

  pub comes_or_goes-touches :
      (op : Op F) (n : String) → comes_or_goes op ≡ some n → In (node n) (touches_of op)
  unfolding comes_or_goes touches_of
  comes_or_goes-touches (add_node p) n e = let k : n ≡ p.node.id = ground arith in inl (ap node k)
  comes_or_goes-touches (remove_node p) n e = let k : n ≡ p.id = ground arith in inl (ap node k)
  comes_or_goes-touches (move_node p) n e = absurd (ground arith)
  comes_or_goes-touches (resize_node p) n e = absurd (ground arith)
  comes_or_goes-touches (set_title p) n e = absurd (ground arith)
  comes_or_goes-touches (set_spec p) n e = absurd (ground arith)
  comes_or_goes-touches (set_state p) n e = absurd (ground arith)
  comes_or_goes-touches (add_edge p) n e = absurd (ground arith)
  comes_or_goes-touches (remove_edge p) n e = absurd (ground arith)
  comes_or_goes-touches (group p) n e = absurd (ground arith)
  comes_or_goes-touches (ungroup p) n e = absurd (ground arith)
  comes_or_goes-touches (set_viewport p) n e = absurd (ground arith)
  comes_or_goes-touches (set_settings p) n e = absurd (ground arith)
  comes_or_goes-touches (set_parent p) n e = absurd (ground arith)

  pub overwrites-free :
      (ts : List Touch) (op : Op F) (t : Touch)
      → conflicts ts op ≡ false
      → In t (overwrites op)
      → (has_touch t ts ≡ false) ⊎ IsGeometry t
  unfolding conflicts overwrites
  overwrites-free ts (move_node p) t h (inl e) = inr (p.id, e)
  overwrites-free ts (move_node p) t h (inr i) = absurd i
  overwrites-free ts (resize_node p) t h (inl e) = inr (p.id, e)
  overwrites-free ts (resize_node p) t h (inr i) = absurd i
  overwrites-free ts (set_spec p) t h (inl e) = inl (rw e (ground arith))
  overwrites-free ts (set_spec p) t h (inr i) = absurd i
  overwrites-free ts (set_title p) t h (inl e) = inl (rw e (ground arith))
  overwrites-free ts (set_title p) t h (inr i) = absurd i
  overwrites-free ts (set_state p) t h (inl e) = inl (rw e (ground arith))
  overwrites-free ts (set_state p) t h (inr i) = absurd i
  overwrites-free ts (set_parent p) t h (inl e) = inl (rw e (ground arith))
  overwrites-free ts (set_parent p) t h (inr i) = absurd i
  overwrites-free ts (group p) t h i = absurd (ground arith)
  overwrites-free ts (add_node p) t h i = absurd i
  overwrites-free ts (remove_node p) t h i = absurd i
  overwrites-free ts (add_edge p) t h i = absurd i
  overwrites-free ts (remove_edge p) t h i = absurd i
  overwrites-free ts (ungroup p) t h i = absurd i
  overwrites-free ts (set_viewport p) t h i = absurd i
  overwrites-free ts (set_settings p) t h i = absurd i

  pub conflicts-global :
      (ts : List Touch) (op : Op F) → conflicts ts op ≡ false → is_global op ≡ false
  unfolding conflicts is_global
  conflicts-global ts (add_node p) h = ground arith
  conflicts-global ts (remove_node p) h = ground arith
  conflicts-global ts (move_node p) h = ground arith
  conflicts-global ts (resize_node p) h = ground arith
  conflicts-global ts (set_title p) h = ground arith
  conflicts-global ts (set_spec p) h = ground arith
  conflicts-global ts (set_state p) h = ground arith
  conflicts-global ts (add_edge p) h = ground arith
  conflicts-global ts (remove_edge p) h = ground arith
  conflicts-global ts (group p) h = ground arith
  conflicts-global ts (ungroup p) h = ground arith
  conflicts-global ts (set_viewport p) h = ground arith
  conflicts-global ts (set_settings p) h = ground arith
  conflicts-global ts (set_parent p) h = ground arith

  pub global-touches : (op : Op F) → is_global op ≡ true → In global (touches_of op)
  unfolding touches_of is_global
  global-touches (add_node p) h = absurd (ground arith)
  global-touches (remove_node p) h = absurd (ground arith)
  global-touches (move_node p) h = absurd (ground arith)
  global-touches (resize_node p) h = absurd (ground arith)
  global-touches (set_title p) h = absurd (ground arith)
  global-touches (set_spec p) h = absurd (ground arith)
  global-touches (set_state p) h = absurd (ground arith)
  global-touches (add_edge p) h = absurd (ground arith)
  global-touches (remove_edge p) h = absurd (ground arith)
  global-touches (group p) h = absurd (ground arith)
  global-touches (ungroup p) h = inl refl
  global-touches (set_viewport p) h = inl refl
  global-touches (set_settings p) h = inl refl
  global-touches (set_parent p) h = absurd (ground arith)

  pub removes-free :
      (ts : List Touch) (op : Op F) (n : String)
      → conflicts ts op ≡ false
      → removes op ≡ some n
      → (has_touch (spec n) ts ≡ false) × (has_touch (geom n) ts ≡ false)
  unfolding conflicts removes
  removes-free ts (add_node p) n h e = absurd (ground arith)
  removes-free ts (remove_node p) n h e = let i : n ≡ p.id = ground arith in rw i (ground arith)
  removes-free ts (move_node p) n h e = absurd (ground arith)
  removes-free ts (resize_node p) n h e = absurd (ground arith)
  removes-free ts (set_title p) n h e = absurd (ground arith)
  removes-free ts (set_spec p) n h e = absurd (ground arith)
  removes-free ts (set_state p) n h e = absurd (ground arith)
  removes-free ts (add_edge p) n h e = absurd (ground arith)
  removes-free ts (remove_edge p) n h e = absurd (ground arith)
  removes-free ts (group p) n h e = absurd (ground arith)
  removes-free ts (ungroup p) n h e = absurd (ground arith)
  removes-free ts (set_viewport p) n h e = absurd (ground arith)
  removes-free ts (set_settings p) n h e = absurd (ground arith)
  removes-free ts (set_parent p) n h e = absurd (ground arith)

  pub target-free :
      (ts : List Touch) (op : Op F) (n : String)
      → conflicts ts op ≡ false
      → target op ≡ some n
      → has_touch (node n) ts ≡ false
  unfolding conflicts target
  target-free ts (remove_node p) n h e = let i : n ≡ p.id = ground arith in rw i (ground arith)
  target-free ts (move_node p) n h e = let i : n ≡ p.id = ground arith in rw i (ground arith)
  target-free ts (resize_node p) n h e = let i : n ≡ p.id = ground arith in rw i (ground arith)
  target-free ts (set_spec p) n h e = let i : n ≡ p.id = ground arith in rw i (ground arith)
  target-free ts (set_title p) n h e = let i : n ≡ p.id = ground arith in rw i (ground arith)
  target-free ts (set_state p) n h e = let i : n ≡ p.id = ground arith in rw i (ground arith)
  target-free ts (set_parent p) n h e = let i : n ≡ p.id = ground arith in rw i (ground arith)
  target-free ts (add_edge p) n h e = let i : n ≡ p.to.node_id = ground arith in rw i (ground arith)
  target-free ts (add_node p) n h e = absurd (ground arith)
  target-free ts (remove_edge p) n h e = absurd (ground arith)
  target-free ts (group p) n h e = absurd (ground arith)
  target-free ts (ungroup p) n h e = absurd (ground arith)
  target-free ts (set_viewport p) n h e = absurd (ground arith)
  target-free ts (set_settings p) n h e = absurd (ground arith)
