-- ===== src/Exec/Collect/Fuel.antt =====
-- internal/exec/compiler.go, `collect`: its fuel, and what it leaves.
use ic.Prelude.{
  ℕ, zero, suc, ◌≤◌, ◌<◌, ◌≡◌, refl, ap, subst, inl, inr, String, not, List, [], ◌∷◌, some, arith,
  length, length-keep-le, same, In, Bool-cases, Option-cases,
}
use ic.Prelude.Dict.{keys, In-keys_of_lookup}
use ic.Platform.Float.{Float64}
use ic.Graph.Document.{Document, Node, find_node, children_of, upstream_of}
use ic.Graph.Cycle.{member, sources}
use ic.Graph.Cycle.Walk.{member_of_In}
use ic.Graph.Cycle.Fuel.{unseen, unseen-cons}
use ic.Graph.Document.{node_type_group}
use ic.Exec.Collect.{
  CredentialFor, Collected, Found, collect_all, append_step, visit_node, collect, collect_fuel,
  collect_targets, executes,
}
use ic.Exec.Collect.Steps.{
  Leaves, and_then-Leaves, Leaves-mono, collect_all-Leaves, IsGood, IsOpen, append_step-Leaves,
}

length-keys : {V : Type 0} (m : List (String × V)) → length (keys m) ≡ length m
length-keys [] = refl
length-keys ((k, v) ∷ m) = ap suc (length-keys m)

unseen-le : (us seen : List String) → unseen us seen ≤ length us
unseen-le us seen = length-keep-le (λ u. not (member u seen)) us

module _ {F : Type 0} ⦃fl : Float64 F⦄ (credential_for : CredentialFor) where
  module _ (doc : Document F)
      (keyed : (k : String) (n : Node F) → find_node doc k ≡ some n → n.id ≡ k) where
    -- What a visit keeps: there is fuel for the nodes that are not visited, and the rest as above.
    abbrev Kept : ℕ → List String → Found F → Type 0
    Kept bound held st = (unseen (keys doc.nodes) st.visited < bound) × IsGood st × IsOpen held st

    Kept-drop :
        (bound : ℕ) (x : String) (held : List String) (st : Found F)
        → Kept bound (x ∷ held) st
        → Kept bound held st
    Kept-drop bound x held st (u, good, opened) = (u, good, λ y m. opened y (inr m))

    visit_node-Leaves :
        (visit : String → Found F → Collected F) (bound : ℕ) (held : List String) (node_id : String)
        → ((x : String) (st : Found F)
            → Kept bound (node_id ∷ held) st
            → Leaves (Kept bound (node_id ∷ held)) (visit x st))
        → ¬ In node_id held
        → (n : Node F) (st : Found F) → n.id ≡ node_id
        → Kept bound (node_id ∷ held) st
        → Leaves (Kept bound held) (visit_node credential_for doc visit node_id n st)
    unfolding visit_node
    visit_node-Leaves visit bound held node_id leaves new n st here kept =
        elim (Bool-cases (same n.type node_type_group)) [
          | inl group ↦
              rw (group, visit_node)
                (Leaves-mono (Kept bound (node_id ∷ held)) (Kept bound held) _
                  (Kept-drop bound node_id held)
                  (collect_all-Leaves _ visit leaves (children_of doc node_id) st kept))
          | inr alone ↦ elim (Bool-cases (executes n)) [
            | inr resource ↦ rw (alone, resource, visit_node) (Kept-drop bound node_id held st kept)
            | inl runs ↦
                rw (alone, runs, visit_node)
                  (and_then-Leaves (Kept bound (node_id ∷ held)) (Kept bound held)
                    (collect_all visit (sources (upstream_of doc node_id)) st)
                    (append_step credential_for n)
                    (collect_all-Leaves _ visit leaves (sources (upstream_of doc node_id)) st kept)
                    (λ t (u, good, opened).
                      Leaves-mono _ (Kept bound held) _
                        (λ t' (good', opened', e). (rw e u, good', opened'))
                        (append_step-Leaves credential_for n held t good (rw here opened)
                          (rw here new))))
          ]
        ]

    collect-Leaves :
        (fuel : ℕ) (held : List String) (x : String) (st : Found F)
        → Kept fuel held st
        → Leaves (Kept fuel held) (collect credential_for doc fuel x st)
    unfolding collect
    collect-Leaves zero held x st (u, _, _) = absurd (omega (arith, u))
    collect-Leaves (suc fuel) held x st (u, good, opened) =
        elim (Bool-cases (member x st.visited)) [
          | inl old ↦ rw (old, collect) (u, good, opened)
          | inr new ↦ elim (Option-cases (find_node doc x)) [
            | inl gone ↦ rw (new, gone, collect) tt
            | inr (n, found) ↦
                let unseen_x : ¬ In x st.visited =
                  λ m. ground (arith, member_of_In x st.visited m) in
                let less =
                  unseen-cons (keys doc.nodes) st.visited x (In-keys_of_lookup x doc.nodes n found)
                    new in
                rw (new, found, collect)
                  (Leaves-mono (Kept fuel held) (Kept (suc fuel) held) _
                    (λ t (u', g, o). (omega (arith, u'), g, o))
                    (visit_node-Leaves (collect credential_for doc fuel) fuel held x
                      (collect-Leaves fuel (x ∷ held)) (λ m. unseen_x (opened x m).0) n _
                      (keyed x n found)
                      (
                        omega (arith, u, less),
                        record {
                          few = good.few;
                          visited = λ y m. inr (good.visited y m);
                          apart = good.apart;
                          named = good.named;
                        },
                        λ y m. elim m [
                          | inl e ↦ (
                            inl e,
                            λ m'. unseen_x (subst (λ k. In k st.visited) e (good.visited y m')),
                          )
                          | inr m' ↦ (inr (opened y m').0, (opened y m').1)
                        ],
                      )))
          ]
        ]

    -- Where every node stands under its own id, the collection of the targets' nodes ends, whatever the
    -- edges and the groups are, with an error or with at most 500 steps, no two of the same node.
    pub collect_targets-IsGood :
        (targets : List String) → Leaves IsGood (collect_targets credential_for doc targets)
    unfolding collect_targets
    collect_targets-IsGood targets =
        Leaves-mono (Kept (collect_fuel credential_for doc) []) IsGood _ (λ t (_, good, _). good)
          (collect_all-Leaves _ (collect credential_for doc (collect_fuel credential_for doc))
            (collect-Leaves (collect_fuel credential_for doc) []) targets _
            (
              omega (arith, unseen-le (keys doc.nodes) [], length-keys doc.nodes),
              record { few = omega arith; visited = λ x m. m; apart = tt; named = λ s m. absurd m },
              λ x m. absurd m,
            ))
