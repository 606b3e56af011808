-- ===== src/Graph/Service/Commit.antt =====
-- internal/graph/service.go, `AppendOps`: what a call that succeeds leaves in the store.
use ic.Prelude.{
  ℕ, ◌+◌, ◌≤◌, ◌≡◌, ◌≢◌, sym, ap, ap₂, ◌∙◌, String, true, not, List, [], ◌∷◌, ◌++◌, some, arith,
  same, map, inl, inr, Bool-cases, ltb,
}
use ic.Prelude.Dict.{lookup, insert, lookup-insert_same, lookup-insert_other}
use ic.Prelude.Int.{ℤ, pos, negsuc}
use ic.Platform.Errors.{ok, new_error, err_not_found, Code, refuse, or_fail, >>=-eq-ok}
use ic.Platform.Float.{Float64}
use ic.Graph.Document.{Document}
use ic.Graph.Ids.{valid_id}
use ic.Graph.Schema.{PluginSchemas}
use ic.Graph.Operation.{RawOp}
use ic.Graph.Apply.Dispatch.{apply, ApplyResult}
use ic.Graph.Store.{Record, MemoryStore, get_document, store_append, records_from, log_of, at_or}
use ic.Graph.Rebase.{rebaseable}
use ic.Graph.Service.{
  Appended, answer, event_of, check_base, inflight, check_rebase, commit, submit, append_ops,
}

ok-injective : {A : Type 0} {a b : A} → ok a ≡ ok b → a ≡ b
ok-injective h = cc

check_base-ok :
    (base_version : ℤ) (version base : ℕ)
    → check_base base_version version ≡ ok base
    → (base_version ≡ pos base) × (base ≤ version)
unfolding check_base
check_base-ok (negsuc n) version base h = absurd (ground arith)
check_base-ok (pos n) version base h = elim (Bool-cases (ltb version n)) [
  | inl e ↦ absurd (ground arith)
  | inr e ↦ let q : n ≡ base = ground arith in (ap pos q, ground arith)
]

-- The records that a batch adds: numbered on from the canvas's last sequence number.
unfoldable pub new_records :
    {F : Type 0} → MemoryStore F → String → ℕ → List (RawOp F) → String → ℕ → List (Record F)
new_records s canvas_id version raws actor now =
    records_from (at_or (lookup canvas_id s.seqs) 0) canvas_id actor version now raws

check_rebase-ok :
    {F : Type 0} (s : MemoryStore F) (canvas_id : String) (base version : ℕ) (raws : List (RawOp F))
    (n : ℕ)
    → base ≢ version
    → check_rebase s canvas_id base version raws ≡ ok n
    → rebaseable raws (inflight s canvas_id base version) ≡ true
unfolding check_rebase
check_rebase-ok s c base version raws n late h =
    elim (Bool-cases (rebaseable raws (inflight s c base version))) [
      | inl e ↦ e
      | inr e ↦ absurd (ground arith)
    ]

module _ {F : Type 0} ⦃fl : Float64 F⦄ (plugins : PluginSchemas) where
  -- `r` is what one more batch on `current` makes of the store `s`.
  pub record Extends (s : MemoryStore F) (canvas_id : String) (current : Document F)
      (raws : List (RawOp F)) (actor : String) (now : ℕ) (r : Appended F) : Type 0 where
    pub version : r.result.version ≡ current.version + 1
    pub same_version : r.doc.version ≡ current.version + 1
    pub saved : lookup canvas_id r.store.docs ≡ some r.doc
    pub logged :
        log_of r.store canvas_id
        ≡ log_of s canvas_id ++ new_records s canvas_id (current.version + 1) raws actor now
    pub published :
        r.events
        ≡ map (event_of actor) (new_records s canvas_id (current.version + 1) raws actor now)
    pub elsewhere :
        (other : String)
        → other ≢ canvas_id
        → (lookup other r.store.docs ≡ lookup other s.docs)
          × (log_of r.store other ≡ log_of s other)

  updated_at-apply :
      (doc : Document F) (raw : RawOp F) (raws : List (RawOp F)) (actor : String) (now : ℕ)
      (r : ApplyResult F × Document F)
      → apply plugins doc (raw ∷ raws) actor now ≡ ok r
      → r.1.updated_at ≡ now
  unfolding apply
  updated_at-apply doc raw raws actor now r h = ground arith

  record Stored (s : MemoryStore F) (canvas_id : String) (current doc : Document F)
      (raws : List (RawOp F)) (actor : String) (now : ℕ) (t : ℕ × List (Record F) × MemoryStore F)
      : Type 0 where
    version : t.0 ≡ current.version + 1
    records : t.1 ≡ new_records s canvas_id (current.version + 1) raws actor now
    docs :
        t.2.docs
        ≡ insert canvas_id (record doc { version = current.version + 1; updated_at = now }) s.docs
    ops :
        t.2.ops
        ≡ insert canvas_id
            (log_of s canvas_id ++ new_records s canvas_id (current.version + 1) raws actor now)
            s.ops

  store_append-Stored :
      (s : MemoryStore F) (canvas_id : String) (v : ℕ) (current doc : Document F)
      (raws : List (RawOp F)) (actor : String) (now : ℕ) (t : ℕ × List (Record F) × MemoryStore F)
      → lookup canvas_id s.docs ≡ some current
      → store_append s canvas_id v doc raws actor now ≡ ok t
      → Stored s canvas_id current doc raws actor now t
  unfolding store_append new_records
  store_append-Stored s c v current doc raws actor now t found h = record {
    version = ground arith;
    records = ground arith;
    docs = ground arith;
    ops = ground arith;
  }

  answer-Extends :
      (s : MemoryStore F) (canvas_id : String) (current : Document F) (rebased : ℕ)
      (raws : List (RawOp F)) (actor : String) (now : ℕ) (applied : ApplyResult F × Document F)
      (t : ℕ × List (Record F) × MemoryStore F)
      → applied.1.updated_at ≡ now
      → Stored s canvas_id current applied.1 raws actor now t
      → Extends s canvas_id current raws actor now (answer applied t rebased actor)
  answer-Extends s c current rebased raws actor now applied t at_now stored = record {
    version = stored.version;
    same_version = stored.version;
    saved = rw stored.docs (
        lookup-insert_same c _ s.docs
        ∙ ap₂ (λ v u. some (record (applied.1) { version = v; updated_at = u }))
            (sym stored.version) (sym at_now));
    logged = rw stored.ops (ap (λ o. at_or o []) (lookup-insert_same c _ s.ops));
    published = ap (map (event_of actor)) stored.records;
    elsewhere = λ other away. (
      rw stored.docs (lookup-insert_other c other _ s.docs away),
      rw stored.ops (ap (λ o. at_or o []) (lookup-insert_other c other _ s.ops away)),
    );
  }

  commit-Extends :
      (s : MemoryStore F) (canvas_id : String) (current : Document F) (rebased : ℕ) (raw : RawOp F)
      (raws : List (RawOp F)) (actor : String) (now : ℕ) (r : Appended F)
      → lookup canvas_id s.docs ≡ some current
      → commit plugins s canvas_id current rebased (raw ∷ raws) actor now ≡ ok r
      → Extends s canvas_id current (raw ∷ raws) actor now r
  unfolding commit
  commit-Extends s c current rebased raw raws actor now r found h =
      let (applied, fn, later) = >>=-eq-ok (apply plugins current (raw ∷ raws) actor now) _ h in
      let (stored, put, out) =
        >>=-eq-ok (store_append s c current.version applied.1 (raw ∷ raws) actor now) _ later in
      rw (sym (ok-injective out)) (
        answer-Extends s c current rebased (raw ∷ raws) actor now applied stored
          (updated_at-apply current raw raws actor now applied fn)
          (store_append-Stored s c current.version current applied.1 (raw ∷ raws) actor now stored
            found put))

  -- Where `AppendOps` accepts a batch of at least one operation on a stored canvas: the answer, the
  -- stored document and the log are one version on, the log and the events have one more record for
  -- each operation, and other canvases are as they were. The base version was at most the server's,
  -- and if it was less then the batch was rebaseable over the records that the store listed.
  pub append_ops-Extends :
      (s : MemoryStore F) (canvas_id : String) (current : Document F) (base_version : ℤ)
      (raw : RawOp F) (raws : List (RawOp F)) (actor : String) (now : ℕ) (r : Appended F)
      → lookup canvas_id s.docs ≡ some current
      → append_ops plugins s canvas_id base_version (raw ∷ raws) actor now ≡ ok r
      → Extends s canvas_id current (raw ∷ raws) actor now r
        × ((base : ℕ) × (base_version ≡ pos base)
            × (base ≤ current.version)
            × (base ≢ current.version
                → rebaseable (raw ∷ raws) (inflight s canvas_id base current.version) ≡ true))
  unfolding append_ops submit get_document check_base check_rebase
  append_ops-Extends s c current base_version raw raws actor now r found h =
      let (t1, valid, h1) = >>=-eq-ok (refuse (not (valid_id c)) (err_not_found "canvas")) _ h in
      let (t2, named, h2) =
        >>=-eq-ok (refuse (same actor "") (new_error 403 Code.forbidden "actor is required")) _
          h1 in
      let (doc, got, h3) = >>=-eq-ok (or_fail (lookup c s.docs) (err_not_found "canvas")) _ h2 in
      let same_doc : doc ≡ current = ground arith in
      let h4 : submit plugins s c current base_version (raw ∷ raws) actor now ≡ ok r =
        rw (sym same_doc) h3 in
      let (base, fits, h5) = >>=-eq-ok (check_base base_version current.version) _ h4 in
      let (rebased, free, h6) =
        >>=-eq-ok (check_rebase s c base current.version (raw ∷ raws)) _ h5 in
      (
        commit-Extends s c current rebased raw raws actor now r found h6,
        (
          base,
          (check_base-ok base_version current.version base fits).0,
          (check_base-ok base_version current.version base fits).1,
          λ late. check_rebase-ok s c base current.version (raw ∷ raws) rebased late free,
        ),
      )
