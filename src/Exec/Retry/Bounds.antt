-- ===== src/Exec/Retry/Bounds.antt =====
-- internal/exec/retry.go: how long `Next` waits, and when it does.
use ic.Prelude.{ℕ, ◌≡◌, refl, ◌⊎◌, inl, inr, true, some, arith, Bool-cases}
use ic.Prelude.Int.{ℤ, pos, ◌≤ℤ◌, ltb_ℤ}
use ic.Platform.Float.{Float64}
use ic.Provider.Errors.{ErrorClass, ProviderError, retryable}
use ic.Exec.Retry.{RetryPolicy, should_retry, clamp_duration, next, wait_of}

clamp_duration_bounds :
    (d max : ℤ) → pos 0 ≤ℤ max → (pos 0 ≤ℤ clamp_duration d max) × (clamp_duration d max ≤ℤ max)
unfolding clamp_duration
clamp_duration_bounds d max h = ground arith

worth_it :
    {F : Type 0} (p : RetryPolicy F) (attempt : ℕ) (e : ProviderError)
    → should_retry p attempt (some e) ≡ true
    → (retryable e ≡ true) × (ltb_ℤ (pos attempt) p.max_attempts ≡ true)
unfolding should_retry retryable
worth_it p attempt e h = ground arith

-- A rate limit that says how long to wait.
abbrev pub Asks : ProviderError → Type 0
Asks e = (e.class ≡ ErrorClass.rate_limited) × (pos 1 ≤ℤ e.retry_after)

-- What is asked for is waited out where the maximum lets it, and else the maximum.
abbrev pub Heeds : ProviderError → ℤ → ℤ → Type 0
Heeds e max wait =
    (¬ Asks e)
    ⊎ ((e.retry_after ≤ℤ max) × (wait ≡ e.retry_after))
    ⊎ ((ltb_ℤ max e.retry_after ≡ true) × (wait ≡ max))

module _ {F : Type 0} ⦃fl : Float64 F⦄ (pow : F → F → F) where
  heeds :
      (p : RetryPolicy F) (roll : F) (attempt : ℕ) (e : ProviderError)
      → Heeds e p.max_backoff (clamp_duration (wait_of pow p roll attempt (some e)) p.max_backoff)
  unfolding clamp_duration
  heeds p roll attempt e = elim (Bool-cases (ltb_ℤ (pos 0) e.retry_after)) [
    | inr no_wait ↦ inl (λ (_, some_wait). ground arith)
    | inl waits ↦ elim (Bool-cases (ltb_ℤ p.max_backoff e.retry_after)) [
      | inl long ↦ ground arith
      | inr short ↦ ground arith
    ]
  ]

  -- Whatever the doubles compute, a wait is not negative and not above the policy's maximum, if that is
  -- not negative. A wait that is not 0 comes only after an error that is worth a retry, before the
  -- last attempt; and after a rate limit that says how long to wait it is that long, or only the
  -- maximum where that is shorter.
  pub next_bounds :
      (p : RetryPolicy F) (roll : F) (attempt : ℕ) (e : ProviderError)
      → pos 0 ≤ℤ p.max_backoff
      → (pos 0 ≤ℤ next pow p roll attempt (some e))
        × (next pow p roll attempt (some e) ≤ℤ p.max_backoff)
        × ((next pow p roll attempt (some e) ≡ pos 0)
            ⊎ ((retryable e ≡ true)
                × (ltb_ℤ (pos attempt) p.max_attempts ≡ true)
                × Heeds e p.max_backoff (next pow p roll attempt (some e))))
  unfolding next
  next_bounds p roll attempt e h =
      let clamped = clamp_duration_bounds (wait_of pow p roll attempt (some e)) p.max_backoff h in
      elim (Bool-cases (should_retry p attempt (some e))) [
        | inl again ↦
            let (worth, room) = worth_it p attempt e again in
            (
              rw (again, next) clamped.0,
              rw (again, next) clamped.1,
              inr (worth, room, rw (again, next) (heeds p roll attempt e)),
            )
        | inr over ↦ (rw (over, next) (omega arith), rw (over, next) h, inl (rw (over, next) refl))
      ]
