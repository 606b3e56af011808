-- ===== src/Exec/Engine/Feeding.antt =====
-- internal/exec/engine.go, `dependsOnNodes`: the edges that feed a node, and changes of steps that
-- lose no dependency.
use ic.Prelude.{
  ◌≡◌, refl, sym, ap, ◌∙◌, subst, ◌≢◌, ◌⊎◌, inl, inr, String, true, ◌||◌, List, [], ◌∷◌, some,
  arith, same, same_iff, In, AllDistinct, Bool-cases, Option-cases,
}
use ic.Graph.Document.{
  Document, Edge, Node, find_node, upstream_of, node_type_generation, node_type_run,
}
use ic.Exec.Plan.{Step}
use ic.Exec.StepMap.{sources_of, depends_on_nodes, put_step}
use ic.Exec.Engine.Steps.{nodes, put_step-In}

-- The steps after a change: each is one of before, with no dependency less.
abbrev pub Grows : List Step → List Step → Type 0
Grows before after =
    (u : Step)
    → In u after
    → (v : Step) × In v before
      × (u.id ≡ v.id)
      × (u.node_id ≡ v.node_id)
      × ((k : String) → In k v.depends_on → In k u.depends_on)

pub Grows-refl : (steps : List Step) → Grows steps steps
Grows-refl steps u m = (u, m, refl, refl, λ k i. i)

pub Grows-trans : (a b c : List Step) → Grows a b → Grows b c → Grows a c
Grows-trans a b c f g u m =
    let (v, mv, i, n, d) = g u m in
    let (w, mw, i', n', d') = f v mv in (w, mw, i ∙ i', n ∙ n', λ k h. d k (d' k h))

pub put_step-Grows :
    (t s : Step) (steps : List Step)
    → AllDistinct (nodes steps)
    → In s steps
    → t.id ≡ s.id
    → t.node_id ≡ s.node_id
    → ((k : String) → In k s.depends_on → In k t.depends_on)
    → Grows steps (put_step t steps)
put_step-Grows t s steps d ms i n deps u m = elim (put_step-In t u steps d m) [
  | inl e ↦ (
    s,
    ms,
    ap (λ (x : Step). x.id) e ∙ i,
    ap (λ (x : Step). x.node_id) e ∙ n,
    λ k h. subst (λ (x : Step). In k x.depends_on) (sym e) (deps k h),
  )
  | inr (m', _) ↦ Grows-refl steps u m'
]

module _ {F : Type 0} (doc : Document F) where
  -- An edge of the canvas leads from an executing node to another node.
  abbrev pub Feeds : String → String → Type 0
  Feeds source target =
      (e : Edge) × (n : Node F) × In e (upstream_of doc target)
      × (find_node doc e.from.node_id ≡ some n)
      × (n.id ≡ source)
      × ((n.type ≡ node_type_generation) ⊎ (n.type ≡ node_type_run))

  executing :
      (t : String)
      → (t ≡ node_type_generation) ⊎ (t ≡ node_type_run)
      → (same t node_type_generation || same t node_type_run) ≡ true
  executing t (inl h) = ground (arith, same_iff t node_type_generation, h)
  executing t (inr h) = ground (arith, same_iff t node_type_run, h)

  sources_of-In :
      (es : List Edge) (e : Edge) (n : Node F)
      → In e es
      → find_node doc e.from.node_id ≡ some n
      → (n.type ≡ node_type_generation) ⊎ (n.type ≡ node_type_run)
      → In n.id (sources_of doc es)
  unfolding sources_of
  sources_of-In [] e n m f x = absurd m
  sources_of-In (a ∷ es) e n (inl here) f x =
      let f' : find_node doc a.from.node_id ≡ some n = rw (sym here) f in
      rw (f', executing n.type x, sources_of) (inl refl)
  sources_of-In (a ∷ es) e n (inr later) f x =
      let ih = sources_of-In es e n later f x in
      elim (Option-cases (find_node doc a.from.node_id)) [
        | inl gone ↦ rw (gone, sources_of) ih
        | inr (b, found) ↦
            elim (Bool-cases (same b.type node_type_generation || same b.type node_type_run)) [
              | inl hit ↦ rw (found, hit, sources_of) (inr ih)
              | inr miss ↦ rw (found, miss, sources_of) ih
            ]
      ]

  pub depends_on_nodes-In :
      (source target : String) → Feeds source target → In source (depends_on_nodes doc target)
  unfolding depends_on_nodes
  depends_on_nodes-In source target (e, n, m, f, i, x) =
      subst (λ k. In k (sources_of doc (upstream_of doc target))) i
        (sources_of-In (upstream_of doc target) e n m f x)

  -- The steps of a node depend on the steps of those that feed it.
  abbrev pub LinkedAt : List Step → String → Type 0
  LinkedAt steps n =
      (s d : Step)
      → In s steps
      → In d steps
      → s.node_id ≡ n
      → Feeds d.node_id n
      → d.id ≢ s.id
      → In d.id s.depends_on

  pub LinkedAt-Grows : (a b : List Step) (n : String) → LinkedAt a n → Grows a b → LinkedAt b n
  LinkedAt-Grows a b n linked g s d ms md e feeds apart =
      let (s', ms', i, k, deps) = g s ms in
      let (d', md', i', k', _) = g d md in
      deps d.id (
        subst (λ x. In x s'.depends_on) (sym i')
          (linked s' d' ms' md' (sym k ∙ e) (subst (λ x. Feeds x n) k' feeds)
            (λ h. apart (i' ∙ h ∙ sym i))))
