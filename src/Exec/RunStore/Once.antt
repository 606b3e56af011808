-- ===== src/Exec/RunStore/Once.antt =====
-- internal/exec/engine.go, `Create`, on the store of internal/exec/memstore.go: runs with a key.
use ic.Prelude.{
  ℕ, ◌≡◌, refl, sym, subst, ◌≢◌, inl, inr, String, false, not, ◌&&◌, some, arith, same, same_iff,
  Bool-cases, Option-cases,
}
use ic.Prelude.Dict.{lookup-insert_same}
use ic.Platform.Errors.{err-ok, ok-eq, ok, Result-cases}
use ic.Exec.Plan.{Run}
use ic.Exec.RunStore.{
  MemoryStore, save_run, with_run, find_by_idempotency_key, existing_run, new_run, create,
  RunRequest, is_taken, idem_key,
}

module _ {F : Type 0} where
  save_run-ok : (run : Run F) (s s' : MemoryStore F) → save_run run s ≡ ok s' → s' ≡ with_run run s
  unfolding save_run
  save_run-ok run s s' h =
      elim (Bool-cases (
        not (same run.idempotency_key "")
        && is_taken s.by_idem (idem_key run.workspace_id run.idempotency_key) run.id)) [
          | inl taken ↦ absurd (err-ok (rw (taken, save_run) at h))
          | inr free ↦ sym (ok-eq (rw (free, save_run) at h))
        ]

  -- A run that is saved is what its key leads to.
  existing_run-with_run :
      (req : RunRequest F) (run : Run F) (s : MemoryStore F)
      → same req.idempotency_key "" ≡ false
      → run.workspace_id ≡ req.workspace_id
      → run.idempotency_key ≡ req.idempotency_key
      → existing_run req (with_run run s) ≡ some run
  unfolding existing_run find_by_idempotency_key
  existing_run-with_run req run s keyed w k =
      let at_key =
        lookup-insert_same (idem_key req.workspace_id req.idempotency_key) run.id s.by_idem in
      simp
        (
          keyed,
          w,
          k,
          at_key,
          lookup-insert_same run.id run s.runs,
          existing_run,
          find_by_idempotency_key,
        )
        refl

  new_run-workspace :
      (req : RunRequest F) (id : String) (now : ℕ)
      → (new_run req id now).workspace_id ≡ req.workspace_id
  unfolding new_run
  new_run-workspace req id now = refl

  new_run-key :
      (req : RunRequest F) (id : String) (now : ℕ)
      → (new_run req id now).idempotency_key ≡ req.idempotency_key
  unfolding new_run
  new_run-key req id now = refl

  -- A request with a key that is made again gives the same run and changes nothing, whatever id and
  -- time the second call has.
  pub create-create :
      (req : RunRequest F) (id id' : String) (now now' : ℕ) (s s' : MemoryStore F) (run : Run F)
      → req.idempotency_key ≢ ""
      → create req id now s ≡ ok (run, s')
      → create req id' now' s' ≡ ok (run, s')
  unfolding create
  create-create req id id' now now' s s' run keyed h =
      let named : same req.idempotency_key "" ≡ false =
        ground (arith, same_iff req.idempotency_key "") in
      elim (Bool-cases (same req.workspace_id "")) [
        | inl nowhere ↦ absurd (err-ok (rw (nowhere, create) at h))
        | inr here ↦ elim (Option-cases (existing_run req s)) [
          | inr (r, e) ↦
              subst (λ p. create req id' now' p.1 ≡ ok p) (ok-eq (rw (here, e, create) at h))
                (rw (here, e, create) refl)
          | inl e ↦ elim (Result-cases (save_run (new_run req id now) s)) [
            | inr (x, f) ↦ absurd (err-ok (rw (here, e, f, e, create) at h))
            | inl (t, f) ↦
                let new = new_run req id now in
                let found : existing_run req t ≡ some new = rw (save_run-ok new s t f) (
                  existing_run-with_run req new s named (new_run-workspace req id now)
                    (new_run-key req id now)) in
                subst (λ p. create req id' now' p.1 ≡ ok p) (ok-eq (rw (here, e, f, create) at h))
                  (rw (here, found, create) refl)
          ]
        ]
      ]
