-- ===== src/Exec/Quota/Decision.antt =====
-- internal/exec/quota.go, `CheckQuota`: what is allowed, in plain numbers.
use ic.Prelude.{
  ℕ, ◌+◌, ◌^◌, ◌≤◌, ◌<◌, ◌≡◌, refl, ◌↔◌, ◌⊎◌, inl, inr, String, true, false, none, some, arith,
  Bool-cases, ltb, ◌&&◌,
}
use ic.Prelude.Int.{pos}
use ic.Platform.Errors.{ok}
use ic.Exec.Cost.{sub64}
use ic.Exec.Cost.Exact.{add64-pos}
use ic.Exec.Quota.{
  Quota, QuotaDecision, QuotaStore, Calendar, remaining_of, exceeded, check_window, or_else,
  check_quota,
}

-- A limit of 0 is no limit.
abbrev pub Within : ℕ → ℕ → Type 0
Within limit cost = (limit ≡ 0) ⊎ (cost ≤ limit)

check_window-cases :
    (store : QuotaStore) (ws_id : String) (limit used estimated : ℕ) (scope : String) (w : ℕ × ℕ)
    → used + estimated < 2 ^ 63
    → store.usage_since ws_id w.0 w.1 ≡ ok (pos used)
    → ((check_window store ws_id (pos limit) (pos estimated) scope w ≡ ok none)
        × Within limit (used + estimated))
      ⊎ ((d : QuotaDecision) × (check_window store ws_id (pos limit) (pos estimated) scope w
            ≡ ok (some d))
          × (d.allowed ≡ false)
          × ¬ Within limit (used + estimated))
unfolding check_window
check_window-cases store ws_id limit used estimated scope w h reads =
    let sum = add64-pos used estimated h in
    elim (Bool-cases (ltb 0 limit)) [
      | inr free ↦ inl (ground arith, inl (ground arith))
      | inl bounded ↦ elim (Bool-cases (ltb limit (used + estimated))) [
        | inr fits ↦ inl (ground arith, inr (ground arith))
        | inl over ↦ inr (
          exceeded scope (sub64 (pos limit) (pos used)) w.1,
          ground arith,
          refl,
          λ wi. ground arith,
        )
      ]
    ]

abbrev pub limits : ℕ → ℕ → ℕ → String → Quota
limits per_run daily monthly zone = record {
  per_run_micros = pos per_run;
  daily_micros = pos daily;
  monthly_micros = pos monthly;
  timezone = zone;
}

-- For limits, usages and an estimate that are not negative, where the two sums stay below 2^63 and
-- the store answers: `CheckQuota` answers, and it allows the run exactly when the estimate is
-- within the limit of a run, and with the usage of the day and of the month within theirs. A limit
-- of 0 is no limit.
pub check_quota-allows :
    (store : QuotaStore) (calendar : Calendar) (ws_id zone : String)
    (per_run daily monthly used_day used_month estimated now : ℕ)
    → store.quota ws_id ≡ ok (limits per_run daily monthly zone)
    → store.usage_since ws_id (calendar.day_bounds zone now).0 (calendar.day_bounds zone now).1
      ≡ ok (pos used_day)
    → store.usage_since ws_id (calendar.month_bounds zone now).0 (calendar.month_bounds zone now).1
      ≡ ok (pos used_month)
    → used_day + estimated < 2 ^ 63
    → used_month + estimated < 2 ^ 63
    → (d : QuotaDecision) × (check_quota store calendar ws_id (pos estimated) now ≡ ok d)
      × ((d.allowed ≡ true) ↔ (
          Within per_run estimated
          × Within daily (used_day + estimated)
          × Within monthly (used_month + estimated)))
unfolding check_quota or_else
check_quota-allows store calendar ws_id zone per_run daily monthly used_day used_month estimated now
      found day month h k =
    let today = calendar.day_bounds zone now in
    let this_month = calendar.month_bounds zone now in
    elim (Bool-cases (ltb 0 per_run && ltb per_run estimated)) [
      | inl over ↦ (
        exceeded "per_run" (sub64 (pos per_run) (pos estimated)) 0,
        ground arith,
        (λ e. ground arith, λ all. let r = all.0 in ground arith),
      )
      | inr under ↦
          let within_run : Within per_run estimated = ground arith in
          elim (check_window-cases store ws_id daily used_day estimated "daily" today h day) [
            | inr (d, refused, shut, not_in) ↦
                (d, ground arith, (λ e. ground arith, λ all. absurd (not_in all.1)))
            | inl (passed, in_day) ↦
                elim (check_window-cases store ws_id monthly used_month estimated "monthly"
                  this_month k month) [
                    | inr (d, refused, shut, not_in) ↦
                        (d, ground arith, (λ e. ground arith, λ all. absurd (not_in all.2)))
                    | inl (passed', in_month) ↦ (
                      record {
                        allowed = true;
                        reason = none;
                        remaining_micros = remaining_of store ws_id (pos daily) today;
                        window_end = today.1;
                        scope = "";
                      },
                      ground arith,
                      (λ e. (within_run, in_day, in_month), λ all. refl),
                    )
                  ]
          ]
    ]
