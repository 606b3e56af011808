-- ===== src/Graph/Rebase/Marks.antt =====
-- internal/graph/service.go, `rebaseable`: the loops over the operations in flight and over the late
-- ones.
use ic.Prelude.{
  ◌≡◌, refl, subst, true, false, List, [], ◌∷◌, ◌++◌, some, same_refl, In, In-append, inl, inr, sym,
  ap, ◌∙◌, arith, Bool-cases, Option-cases,
}
use ic.Platform.Errors.{ok, Result-cases}
use ic.Graph.Operation.{Op, RawOp}
use ic.Graph.Apply.Dispatch.{decode_op}
use ic.Graph.Store.{Record}
use ic.Graph.Rebase.{
  Touch, node, geom, spec, title, state, edge, parent, global, same_touch, has_touch, touches_of,
  touched_inflight, conflicts, all_free,
}

same_touch_refl : (t : Touch) → same_touch t t ≡ true
unfolding same_touch
same_touch_refl (node a) = same_refl a
same_touch_refl (geom a) = same_refl a
same_touch_refl (spec a) = same_refl a
same_touch_refl (title a) = same_refl a
same_touch_refl (state a) = same_refl a
same_touch_refl (edge a) = same_refl a
same_touch_refl (parent a) = same_refl a
same_touch_refl global = refl

pub has_touch-In : (t : Touch) (ts : List Touch) → In t ts → has_touch t ts ≡ true
has_touch-In t [] m = absurd m
has_touch-In t (s ∷ ts) (inl e) =
    let h : same_touch t s ≡ true = ap (same_touch t) (sym e) ∙ same_touch_refl t in ground arith
has_touch-In t (s ∷ ts) (inr m) = let h = has_touch-In t ts m in ground arith

module _ {F : Type 0} where
  pub touched_inflight-In :
      (rs : List (Record F)) (ts : List Touch) (r : Record F) (prior : Op F) (t : Touch)
      → touched_inflight rs ≡ some ts
      → In r rs
      → decode_op r.op ≡ ok prior
      → In t (touches_of prior)
      → In t ts
  unfolding touched_inflight
  touched_inflight-In [] ts r prior t h m d i = absurd m
  touched_inflight-In (s ∷ rs) ts r prior t h (inl e) d i =
      let d' : decode_op s.op ≡ ok prior = ap (λ q. decode_op (Record.op q)) (sym e) ∙ d in
      elim (Option-cases (touched_inflight rs)) [
        | inl gone ↦ absurd (ground arith)
        | inr (us, found) ↦
            let parts : ts ≡ touches_of prior ++ us = ground arith in
            subst (In t) (sym parts) ((In-append t (touches_of prior) us).1 (inl i))
      ]
  touched_inflight-In (s ∷ rs) ts r prior t h (inr m) d i = elim (Result-cases (decode_op s.op)) [
    | inr (e, bad) ↦ absurd (ground arith)
    | inl (first, good) ↦ elim (Option-cases (touched_inflight rs)) [
      | inl gone ↦ absurd (ground arith)
      | inr (us, found) ↦
          let parts : ts ≡ touches_of first ++ us = ground arith in
          subst (In t) (sym parts) (
            (In-append t (touches_of first) us).1
              (inr (touched_inflight-In rs us r prior t found m d i)))
    ]
  ]

  pub all_free-In :
      (ts : List Touch) (raws : List (RawOp F)) (raw : RawOp F) (op : Op F)
      → all_free ts raws ≡ true
      → In raw raws
      → decode_op raw ≡ ok op
      → conflicts ts op ≡ false
  unfolding all_free
  all_free-In ts [] raw op h m d = absurd m
  all_free-In ts (x ∷ raws) raw op h (inl e) d =
      let d' : decode_op x ≡ ok op = ap decode_op (sym e) ∙ d in ground arith
  all_free-In ts (x ∷ raws) raw op h (inr m) d =
      let rest : all_free ts raws ≡ true = elim (Result-cases (decode_op x)) [
        | inr (e, bad) ↦ absurd (ground arith)
        | inl (first, good) ↦ elim (Bool-cases (conflicts ts first)) [
          | inl c ↦ absurd (ground arith)
          | inr c ↦ ground arith
        ]
      ] in
      all_free-In ts raws raw op rest m d
