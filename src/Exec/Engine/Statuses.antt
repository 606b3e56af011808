-- ===== src/Exec/Engine/Statuses.antt =====
-- internal/exec/engine.go: what the statuses of the steps make of the status and the error of a run.
use ic.Prelude.{
  ◌<◌, ◌≡◌, refl, ap, sym, ◌∙◌, ◌++◌, ◌≢◌, ◌⊎◌, inl, inr, Bool, true, false, List, [], ◌∷◌, none,
  some, arith, ltb→lt, In, Bool-cases, Option-cases, ltb, ◌==◌,
}
use ic.Provider.Errors.{ProviderError}
use ic.Exec.Plan.{RunStatus, Step, StepStatus}
use ic.Exec.StepMap.{count_if, is_failed, is_succeeded, summarize, primary_error}

-- A step among the steps has a status.
abbrev pub Some : StepStatus → List Step → Type 0
Some status steps = (s : Step) × In s steps × (s.status ≡ status)

pub count_if-zero :
    (p : StepStatus → Bool) (s : Step) (steps : List Step)
    → count_if p steps ≡ 0
    → In s steps
    → p s.status ≡ false
unfolding count_if
count_if-zero p s [] h m = absurd m
count_if-zero p s (t ∷ steps) h (inl e) = rw e (ground arith)
count_if-zero p s (t ∷ steps) h (inr m) = count_if-zero p s steps (ground arith) m

pub count_if-suc :
    (p : StepStatus → Bool) (steps : List Step)
    → 0 < count_if p steps
    → (s : Step) × In s steps × (p s.status ≡ true)
unfolding count_if
count_if-suc p [] h = absurd (omega arith)
count_if-suc p (t ∷ steps) h = elim (Bool-cases (p t.status)) [
  | inl e ↦ (t, inl refl, e)
  | inr e ↦ let (s, m, f) = count_if-suc p steps (ground arith) in (s, inr m, f)
]

count_if-succeeded :
    (steps : List Step) → 0 < count_if is_succeeded steps → Some StepStatus.succeeded steps
count_if-succeeded steps h =
    let (s, m, e) = count_if-suc is_succeeded steps h in (s, m, ground arith)

count_if-failed : (steps : List Step) → 0 < count_if is_failed steps → Some StepStatus.failed steps
count_if-failed steps h = let (s, m, e) = count_if-suc is_failed steps h in (s, m, ground arith)

none_of :
    (p : StepStatus → Bool) (status : StepStatus) (steps : List Step)
    → p status ≡ true
    → count_if p steps ≡ 0
    → ¬ Some status steps
none_of p status steps h z (s, m, e) = ground (arith, count_if-zero p s steps z m, e)

-- An error is that of the first failed step.
abbrev pub IsFirstError : ProviderError → List Step → Type 0
IsFirstError e steps =
    (before : List Step) × (s : Step) × (later : List Step) × (steps ≡ before ++ s ∷ later)
    × (s.status ≡ StepStatus.failed)
    × (s.error ≡ some e)
    × ¬ Some StepStatus.failed before

-- Where every failed step has an error, that of the first one is the error of the run.
pub primary_error-first :
    (steps : List Step)
    → ((s : Step) → In s steps → s.status ≡ StepStatus.failed → s.error ≢ none)
    → Some StepStatus.failed steps
    → (e : ProviderError) × (primary_error steps ≡ some e) × IsFirstError e steps
unfolding primary_error
primary_error-first [] err (s, m, f) = absurd m
primary_error-first (t ∷ steps) err (s, m, f) = elim (Bool-cases (is_failed t.status)) [
  | inl failed ↦ elim (Option-cases t.error) [
    | inl bare ↦ absurd (err t (inl refl) (ground arith) bare)
    | inr (e, g) ↦ (
      e,
      rw (failed, g, primary_error) refl,
      ([], t, steps, refl, ground arith, g, λ (_, nowhere, _). nowhere),
    )
  ]
  | inr no_fail ↦
      let sound : t.status ≢ StepStatus.failed = λ h. ground (arith, h) in
      let rest : Some StepStatus.failed steps = elim m [
        | inl here ↦ absurd (sound (sym (ap (λ (x : Step). x.status) here) ∙ f))
        | inr later ↦ (s, later, f)
      ] in
      let (e, g, (before, u, after, parts, uf, ue, none_before)) =
        primary_error-first steps (λ u mu. err u (inr mu)) rest in
      (
        e,
        rw (no_fail, primary_error) g,
        (
          t ∷ before,
          u,
          after,
          ap (λ l. t ∷ l) parts,
          uf,
          ue,
          λ (v, mv, vf). elim mv [
            | inl here ↦ sound (sym (ap (λ (x : Step). x.status) here) ∙ vf)
            | inr later ↦ none_before (v, later, vf)
          ],
        ),
      )
]

pub primary_error-none :
    (steps : List Step) → (¬ Some StepStatus.failed steps) → primary_error steps ≡ none
unfolding primary_error
primary_error-none [] h = refl
primary_error-none (t ∷ steps) h = elim (Bool-cases (is_failed t.status)) [
  | inl failed ↦ absurd (h (t, inl refl, ground arith))
  | inr no_fail ↦
      rw (no_fail, primary_error) (primary_error-none steps (λ (s, m, e). h (s, inr m, e)))
]

pub summarize-cases :
    (steps : List Step)
    → ((summarize steps ≡ RunStatus.succeeded) × ¬ Some StepStatus.failed steps)
      ⊎ ((summarize steps ≡ RunStatus.partial)
          × Some StepStatus.failed steps
          × Some StepStatus.succeeded steps)
      ⊎ ((summarize steps ≡ RunStatus.failed)
          × (¬ Some StepStatus.succeeded steps)
          × Some StepStatus.failed steps)
unfolding summarize
summarize-cases steps = elim (Bool-cases (ltb 0 (count_if is_failed steps))) [
  | inr sound ↦ inl (
    rw (sound, summarize) refl,
    none_of is_failed StepStatus.failed steps refl (ground (arith, sound)),
  )
  | inl failed ↦
      let some_failed = count_if-failed steps (ltb→lt 0 (count_if is_failed steps) failed) in
      elim (Bool-cases (count_if is_succeeded steps == 0)) [
        | inl all ↦ inr (
            inr (
              rw (failed, all, summarize) refl,
              none_of is_succeeded StepStatus.succeeded steps refl (ground (arith, all)),
              some_failed,
            ))
        | inr part ↦ inr (
            inl (
              rw (failed, part, summarize) refl,
              some_failed,
              count_if-succeeded steps (ground (arith, part)),
            ))
      ]
]
