-- ===== src/Exec/AdHoc/Limits.antt =====
-- internal/exec/adhoc.go: what a plan of one step may ask for, and how its run ends.
use ic.Prelude.{
  ℕ, suc, ◌≤◌, ◌≡◌, refl, ap, subst, ◌∙◌, ◌≢◌, ◌⊎◌, inl, inr, String, true, List, [], ◌∷◌, Option,
  none, some, same, same_iff, length, ltb, arith, In, Bool-cases, Option-cases,
}
use ic.Prelude.Int.{ℤ, pos, ◌≤ℤ◌}
use ic.Prelude.Dict.{lookup}
use ic.Platform.Float.{Float64}
use ic.Platform.Errors.{ok, err, err-ok, ok-eq, new_error, Code, DomainError}
use ic.Graph.Ids.{valid_id}
use ic.Graph.Validate.{valid_capability_string}
use ic.Graph.Limits.{max_variants_per_node}
use ic.Exec.Plan.{Plan, PlanStep, ResolvedInput, Run, RunStatus, Step, StepStatus, recompute_usage}
use ic.Exec.Retry.{RetryPolicy}
use ic.Exec.World.{World}
use ic.Exec.Attempts.Count.{run_step-max_attempts}
use ic.Exec.Attempts.Unfinished.{Unfinished, run_step-Unfinished}
use ic.Provider.Errors.{CallError, classify_transport}
use ic.Exec.Collect.{text_field}
use ic.Exec.Engine.{Executed, begun, finish_run}
use ic.Exec.AdHoc.{
  compile_ad_hoc, ad_hoc_step, capability_of, int_from_any, reference_input, reference_inputs,
  clamp_count, string_slice, max_ad_hoc_references, conclude_ad_hoc, execute_ad_hoc, begun_step,
}

clamp_count-bounds :
    (n : Option ℤ) → (pos 1 ≤ℤ clamp_count n) × (clamp_count n ≤ℤ pos max_variants_per_node)
unfolding clamp_count
clamp_count-bounds n = ground arith

abbrev Valid : List ResolvedInput → Type 0
Valid inputs = (r : ResolvedInput) → In r inputs → valid_id r.asset_id ≡ true

reference_inputs-cases :
    (i : ℕ) (ids : List String)
    → ((e : DomainError) × (reference_inputs i ids ≡ err e))
      ⊎ ((out : List ResolvedInput) × (reference_inputs i ids ≡ ok out)
          × (length out ≡ length ids)
          × Valid out)
unfolding reference_inputs
reference_inputs-cases i [] = inr ([], refl, refl, λ r m. absurd m)
reference_inputs-cases i (id ∷ ids) = elim (Bool-cases (valid_id id)) [
  | inr bad ↦
      inl (new_error 422 Code.invalid_request "参考图 assetId 不合法", rw (bad, reference_inputs) refl)
  | inl good ↦ elim (reference_inputs-cases (suc i) ids) [
    | inl (e, f) ↦ inl (e, rw (good, f, reference_inputs) refl)
    | inr (out, f, size, valid) ↦ inr (
      reference_input i id ∷ out,
      rw (good, f, reference_inputs) refl,
      ap suc size,
      λ r m. elim m [
        | inl here ↦ ap (λ (x : ResolvedInput). valid_id x.asset_id) here ∙ good
        | inr later ↦ valid r later
      ],
    )
  ]
]

module _ {F : Type 0} ⦃fl : Float64 F⦄ where
  abbrev pub IsModest : Plan F → Type 0
  IsModest plan =
      (s : PlanStep F) × (plan.steps ≡ s ∷ [])
      × (s.prompt ≢ "")
      × ((pos 1 ≤ℤ s.count) × (s.count ≤ℤ pos max_variants_per_node))
      × (length s.inputs ≤ max_ad_hoc_references)
      × Valid s.inputs

  -- A plan of a run that is not of a canvas has one step, which has a prompt, asks for 1 to 15 outputs, and
  -- has at most 7 references, all with valid ids.
  pub compile_ad_hoc-IsModest :
      (run : Run F) (plan : Plan F) → compile_ad_hoc run ≡ ok plan → IsModest plan
  unfolding compile_ad_hoc
  compile_ad_hoc-IsModest run plan h =
      let refs = string_slice (lookup "references" run.params) in
      elim (Bool-cases (valid_capability_string (capability_of run.params))) [
        | inr unknown ↦ absurd (err-ok (rw (unknown, compile_ad_hoc) at h))
        | inl known ↦ elim (Bool-cases (same (text_field run.params "prompt") "")) [
          | inl bare ↦ absurd (err-ok (rw (known, bare, compile_ad_hoc) at h))
          | inr prompted ↦ elim (Bool-cases (ltb max_ad_hoc_references (length refs))) [
            | inl many ↦ absurd (err-ok (rw (known, prompted, many, compile_ad_hoc) at h))
            | inr few ↦ elim (reference_inputs-cases 0 refs) [
              | inl (e, f) ↦ absurd (err-ok (rw (known, prompted, few, f, compile_ad_hoc) at h))
              | inr (inputs, f, size, valid) ↦
                  subst IsModest (ok-eq (rw (known, prompted, few, f, compile_ad_hoc) at h)) (
                    ad_hoc_step run inputs,
                    refl,
                    (λ e. ground (arith, prompted, same_iff (text_field run.params "prompt") "")),
                    clamp_count-bounds (int_from_any (lookup "outputCount" run.params)),
                    ground (arith, size, few),
                    valid,
                  )
            ]
          ]
        ]
      ]

  -- How a run of the one step `s` ends: as its step does, with the error of the step.
  abbrev pub Concluded : Executed F → Step → Type 0
  Concluded x s =
      ((x.run.status ≡ RunStatus.succeeded)
        × (x.failure ≡ none)
        × (x.run.error ≡ none)
        × (s.status ≡ StepStatus.succeeded))
      ⊎ ((e : CallError) × (x.run.status ≡ RunStatus.failed)
          × (x.failure ≡ some e)
          × (x.run.error ≡ some (classify_transport e))
          × (s.status ≢ StepStatus.succeeded))

  -- A run that is not of a canvas always comes back, with its one step. It is succeeded, without an
  -- error, exactly where the step has succeeded. Else it is failed, an error is returned, and the run
  -- keeps what `ClassifyTransport` makes of that error, whatever its class was.
  pub execute_ad_hoc-ends :
      (world : World F) (pow : F → F → F) (policy : RetryPolicy F) (run : Run F) (ps : PlanStep F)
      (rest : List (PlanStep F)) (order : List String)
      → (x : Executed F) × (s : Step) × (execute_ad_hoc world pow policy run
            (record { steps = ps ∷ rest; order = order })
          ≡ some x)
        × (x.run.steps ≡ s ∷ [])
        × Concluded x s
  unfolding execute_ad_hoc conclude_ad_hoc finish_run recompute_usage
  execute_ad_hoc-ends world pow policy run ps rest order =
      let (r, e, keeps, settled, _) =
        run_step-max_attempts world pow policy (begun world run) (begun_step world ps) ps in
      let unfinished : Unfinished (some r) =
        subst Unfinished e
          (run_step-Unfinished world pow policy (begun world run) (begun_step world ps) ps) in
      elim (Option-cases (r.failure)) [
        | inl fine ↦ (
          conclude_ad_hoc world run r,
          r.step,
          rw (e, execute_ad_hoc) refl,
          rw (fine, conclude_ad_hoc) refl,
          inl (
            rw (fine, conclude_ad_hoc) refl,
            rw (fine, conclude_ad_hoc) refl,
            rw (fine, conclude_ad_hoc) refl,
            settled fine,
          ),
        )
        | inr (x, f) ↦ (
          conclude_ad_hoc world run r,
          r.step,
          rw (e, execute_ad_hoc) refl,
          rw (f, conclude_ad_hoc) refl,
          inr (
            x,
            rw (f, conclude_ad_hoc) refl,
            rw (f, conclude_ad_hoc) refl,
            rw (f, conclude_ad_hoc) refl,
            unfinished (λ h. ground arith),
          ),
        )
      ]
