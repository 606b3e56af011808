-- ===== src/Exec/Retry.antt =====
-- internal/exec/retry.go: which failed attempts are repeated, and after how long. Durations are 64-bit
-- counts of nanoseconds; `pow` is math.Pow, and `roll` is a call of rand.Float64.
pub mod Bounds
use ic.Prelude.{
  ℕ, ◌-◌, Bool, true, false, Option, none, some, leb, if◌then◌else◌, ◌&&◌, ◌<◌, ◌≡◌, arith,
}
use ic.Prelude.Int.{ℤ, pos, ltb_ℤ, sub_ℕ}
use ic.Platform.Float.{Float64, ◌<f◌, ◌+f◌, ◌-f◌, ◌*f◌}
use ic.Provider.Errors.{ProviderError, ErrorClass, retryable}

pub record RetryPolicy (F : Type 0) : Type 0 where
  pub max_attempts : ℤ
  pub base_backoff : ℤ
  pub max_backoff : ℤ
  pub jitter : F

module _ {F : Type 0} where
  -- `attempt` is counted from 1.
  unfoldable pub should_retry : RetryPolicy F → ℕ → Option ProviderError → Bool
  should_retry p attempt none = false
  should_retry p attempt (some e) =
      if ltb_ℤ (pos attempt) p.max_attempts
      then elim (e.class) [
        | ErrorClass.transient ↦ true
        | ErrorClass.rate_limited ↦ true
        | _ ↦ false
      ]
      else false

unfoldable pub clamp_duration : ℤ → ℤ → ℤ
clamp_duration d max = if ltb_ℤ d (pos 0) then pos 0 else if ltb_ℤ max d then max else d

module _ {F : Type 0} ⦃fl : Float64 F⦄ (pow : F → F → F) where
  abbrev with_jitter : RetryPolicy F → F → F → F
  with_jitter p roll base =
      if fl.num (pos 0) <f p.jitter
      then base *f (fl.num (pos 1) +f (roll *f fl.num (pos 2) -f fl.num (pos 1)) *f p.jitter)
      else base

  abbrev capped : RetryPolicy F → F → F
  capped p base = if fl.num p.max_backoff <f base then fl.num p.max_backoff else base

  abbrev asks_to_wait : Option ProviderError → Option ℤ
  asks_to_wait none = none
  asks_to_wait (some e) = elim (e.class) [
    | ErrorClass.rate_limited ↦ if ltb_ℤ (pos 0) e.retry_after then some e.retry_after else none
    | _ ↦ none
  ]

  -- The wait before it is clamped: what the upstream asks for, or the backoff.
  abbrev pub wait_of : RetryPolicy F → F → ℕ → Option ProviderError → ℤ
  wait_of p roll attempt e = elim (asks_to_wait e) [
    | some d ↦ d
    | none ↦ fl.to_int (
        with_jitter p roll
          (capped p (fl.num p.base_backoff *f pow (fl.num (pos 2)) (fl.num (sub_ℕ attempt 1)))))
  ]

  -- The wait before the next attempt; 0 is no next attempt.
  unfoldable pub next : RetryPolicy F → F → ℕ → Option ProviderError → ℤ
  next p roll attempt e =
      if should_retry p attempt e
      then clamp_duration (wait_of p roll attempt e) p.max_backoff
      else pos 0
