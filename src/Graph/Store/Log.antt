-- ===== src/Graph/Store/Log.antt =====
-- internal/graph/memory_store.go: the numbering of a canvas's log, and the pages that `ListOps` reads.
use ic.Prelude.{
  ℕ, zero, suc, ◌+◌, ◌-◌, ◌≤◌, ◌<◌, ◌≡◌, refl, sym, ap, ◌∙◌, String, List, [], ◌∷◌, ◌++◌, arith,
  length, length-append, leb, leb→le, Bool-cases, inl, inr, Option-cases, subst,
}
use ic.Prelude.Dict.{lookup, insert, lookup-insert_same}
use ic.Platform.Errors.{ok}
use ic.Graph.Document.{Document}
use ic.Graph.Operation.{RawOp}
use ic.Graph.Store.{
  Record, MemoryStore, store_append, records_from, records_after, list_ops, log_of, at_or,
  limit_or_default,
}

module _ {F : Type 0} where
  -- The records are numbered one after the other, from the number after `k`.
  abbrev pub IsNumbered : ℕ → List (Record F) → Type 0
  IsNumbered k [] = Unit
  IsNumbered k (r ∷ rs) = (r.seq ≡ k + 1) × IsNumbered (k + 1) rs

  -- The first `n` records, and what is left after them.
  abbrev pub take : ℕ → List (Record F) → List (Record F)
  take zero rs = []
  take (suc n) [] = []
  take (suc n) (r ∷ rs) = r ∷ take n rs

  abbrev pub drop : ℕ → List (Record F) → List (Record F)
  drop zero rs = rs
  drop (suc n) [] = []
  drop (suc n) (r ∷ rs) = drop n rs

  drop_nil : (n : ℕ) → drop n [] ≡ []
  drop_nil zero = refl
  drop_nil (suc n) = refl

  IsNumbered-append :
      (k : ℕ) (xs ys : List (Record F))
      → IsNumbered k xs
      → IsNumbered (k + length xs) ys
      → IsNumbered k (xs ++ ys)
  IsNumbered-append k [] ys h i = subst (λ n. IsNumbered n ys) (omega arith) i
  IsNumbered-append k (r ∷ xs) ys (e, h) i =
      (e, IsNumbered-append (k + 1) xs ys h (subst (λ n. IsNumbered n ys) (omega arith) i))

  IsNumbered-records_from :
      (k : ℕ) (canvas_id actor : String) (version now : ℕ) (raws : List (RawOp F))
      → IsNumbered k (records_from k canvas_id actor version now raws)
  unfolding records_from
  IsNumbered-records_from k c actor version now [] = tt
  IsNumbered-records_from k c actor version now (raw ∷ raws) =
      (refl, IsNumbered-records_from (k + 1) c actor version now raws)

  length-records_from :
      (k : ℕ) (canvas_id actor : String) (version now : ℕ) (raws : List (RawOp F))
      → length (records_from k canvas_id actor version now raws) ≡ length raws
  unfolding records_from
  length-records_from k c actor version now [] = refl
  length-records_from k c actor version now (raw ∷ raws) =
      ap (λ n. suc n) (length-records_from (k + 1) c actor version now raws)

  records_after-hit :
      (since n : ℕ) (r : Record F) (rs : List (Record F))
      → since < r.seq
      → records_after since (suc (suc n)) (r ∷ rs) ≡ r ∷ records_after since (suc n) rs
  unfolding records_after
  records_after-hit since n r rs h =
      let one_less : suc (suc n) - 1 ≡ suc n = omega arith in
      let hit : records_after since (suc (suc n)) (r ∷ rs)
          ≡ r ∷ records_after since (suc (suc n) - 1) rs =
        ground arith in
      hit ∙ ap (λ m. r ∷ records_after since m rs) one_less

  records_after-miss :
      (since n : ℕ) (r : Record F) (rs : List (Record F))
      → r.seq ≤ since
      → records_after since n (r ∷ rs) ≡ records_after since n rs
  unfolding records_after
  records_after-miss since n r rs h = ground arith

  -- Once the log is past `since`, every record counts.
  records_after-late :
      (since k n : ℕ) (rs : List (Record F))
      → since ≤ k
      → IsNumbered k rs
      → records_after since (suc n) rs ≡ take (suc n) rs
  unfolding records_after
  records_after-late since k n [] h i = refl
  records_after-late since k zero (r ∷ rs) h (e, i) = ground arith
  records_after-late since k (suc n) (r ∷ rs) h (e, i) =
      records_after-hit since n r rs (omega arith)
      ∙ ap (λ l. r ∷ l) (records_after-late since (k + 1) n rs (omega arith) i)

  records_after-page :
      (since k n : ℕ) (rs : List (Record F))
      → IsNumbered k rs
      → records_after since (suc n) rs ≡ take (suc n) (drop (since - k) rs)
  unfolding records_after
  records_after-page since k n [] i = ap (take (suc n)) (sym (drop_nil (since - k)))
  records_after-page since k n (r ∷ rs) (e, i) = elim (Bool-cases (leb since k)) [
    | inl early ↦
        let none_gone : since - k ≡ 0 = ground arith in
        rw none_gone (records_after-late since k n (r ∷ rs) (leb→le since k early) (e, i))
    | inr late ↦
        let gone : since - k ≡ suc (since - (k + 1)) = ground arith in
        rw gone (
          records_after-miss since (suc n) r rs (ground arith)
          ∙ records_after-page since (k + 1) n rs i)
  ]

  -- A page of a log that is numbered from `k` has the records after number `since`, up to the limit,
  -- in order, and 0 as a limit stands for 200.
  pub list_ops-page :
      (s : MemoryStore F) (canvas_id : String) (k since limit : ℕ)
      → IsNumbered k (log_of s canvas_id)
      → list_ops s canvas_id since limit
        ≡ take (limit_or_default limit) (drop (since - k) (log_of s canvas_id))
  unfolding list_ops
  list_ops-page s c k since zero i = records_after-page since k 199 (log_of s c) i
  list_ops-page s c k since (suc n) i =
      let kept : limit_or_default (suc n) ≡ suc n = ground arith in
      rw kept (records_after-page since k n (log_of s c) i)

  -- If a canvas's log is numbered without gaps up to the canvas's sequence number, that is so after
  -- every append that is accepted.
  pub store_append-IsNumbered :
      (s : MemoryStore F) (canvas_id : String) (v k : ℕ) (doc : Document F) (raws : List (RawOp F))
      (actor : String) (now : ℕ) (t : ℕ × List (Record F) × MemoryStore F)
      → IsNumbered k (log_of s canvas_id)
      → at_or (lookup canvas_id s.seqs) 0 ≡ k + length (log_of s canvas_id)
      → store_append s canvas_id v doc raws actor now ≡ ok t
      → IsNumbered k (log_of t.2 canvas_id)
        × (at_or (lookup canvas_id t.2.seqs) 0 ≡ k + length (log_of t.2 canvas_id))
  unfolding store_append
  store_append-IsNumbered s c v k doc raws actor now t i e h =
      elim (Option-cases (lookup c s.docs)) [
        | inl gone ↦ absurd (ground arith)
        | inr (cur, found) ↦
            let seq = at_or (lookup c s.seqs) 0 in
            let added = records_from seq c actor (cur.version + 1) now raws in
            let ops : t.2.ops ≡ insert c (log_of s c ++ added) s.ops = ground arith in
            let seqs : t.2.seqs ≡ insert c (seq + length raws) s.seqs = ground arith in
            let log : log_of t.2 c ≡ log_of s c ++ added =
              rw ops (ap (λ o. at_or o []) (lookup-insert_same c _ s.ops)) in
            let last : at_or (lookup c t.2.seqs) 0 ≡ seq + length raws =
              rw seqs (ap (λ o. at_or o 0) (lookup-insert_same c _ s.seqs)) in
            let many = length-append (log_of s c) added in
            let each = length-records_from seq c actor (cur.version + 1) now raws in
            (
              rw log (
                  IsNumbered-append k (log_of s c) added i (
                    subst (λ n. IsNumbered n added) e
                      (IsNumbered-records_from seq c actor (cur.version + 1) now raws))),
              rw log (omega (arith, last, many, each, e)),
            )
      ]
