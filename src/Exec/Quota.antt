-- ===== src/Exec/Quota.antt =====
-- internal/exec/quota.go: whether a workspace's limits allow a run. The store is a parameter, and so
-- are the days and months of a time zone, which the package `time` computes.
pub mod Decision
use ic.Prelude.{ℕ, String, Bool, true, false, Option, none, some, if◌then◌else◌, ◌&&◌}
use ic.Prelude.Int.{ℤ, pos, negsuc, ltb_ℤ}
use ic.Platform.Errors.{Result, ok, err, Code, ◌>>=◌, ◌>>◌}
use ic.Exec.Cost.{add64, sub64, positive}

pub record Quota : Type 0 where
  pub daily_micros : ℤ
  pub monthly_micros : ℤ
  pub per_run_micros : ℤ
  pub timezone : String

pub record QuotaDecision : Type 0 where
  pub allowed : Bool
  pub reason : Option Code
  pub remaining_micros : ℤ
  pub window_end : ℕ
  pub scope : String

pub record QuotaStore : Type 0 where
  pub quota : String → Result Quota
  pub usage_since : String → ℕ → ℕ → Result ℤ

-- The bounds of a day and of a month around a time, in the zone of a name (UTC if it is unknown).
pub record Calendar : Type 0 where
  pub day_bounds : String → ℕ → ℕ × ℕ
  pub month_bounds : String → ℕ → ℕ × ℕ

abbrev pub exceeded : String → ℤ → ℕ → QuotaDecision
exceeded scope remaining window_end = record {
  allowed = false;
  reason = some Code.quota_exceeded;
  remaining_micros = remaining;
  window_end = window_end;
  scope = scope;
}

-- One window: the refusal, if the usage in it and the estimate together pass the limit.
unfoldable pub check_window :
    QuotaStore → String → ℤ → ℤ → String → ℕ × ℕ → Result (Option QuotaDecision)
check_window store ws_id limit estimated scope window =
    if positive limit
    then (do
      used ← store.usage_since ws_id window.0 window.1
      ok (
          if ltb_ℤ limit (add64 used estimated)
          then some (exceeded scope (sub64 limit used) window.1)
          else none))
    else ok none

-- An error of the second reading is dropped, and leaves no usage.
abbrev usage_or_zero : Result ℤ → ℤ
usage_or_zero (ok used) = used
usage_or_zero (err e) = pos 0

abbrev pub remaining_of : QuotaStore → String → ℤ → ℕ × ℕ → ℤ
remaining_of store ws_id limit day =
    if positive limit
    then sub64 limit (usage_or_zero (store.usage_since ws_id day.0 day.1))
    else negsuc 0

-- The first refusal of the two, or leave.
unfoldable pub or_else : Option QuotaDecision → Result QuotaDecision → Result QuotaDecision
or_else none m = m
or_else (some refusal) m = ok refusal

unfoldable pub check_quota : QuotaStore → Calendar → String → ℤ → ℕ → Result QuotaDecision
check_quota store calendar ws_id estimated now = do
  q ← store.quota ws_id
  or_else
      (if positive q.per_run_micros && ltb_ℤ q.per_run_micros estimated
        then some (exceeded "per_run" (sub64 q.per_run_micros estimated) 0)
        else none)
      (do
        let day = calendar.day_bounds q.timezone now
        daily ← check_window store ws_id q.daily_micros estimated "daily" day
        or_else daily (do
          let month = calendar.month_bounds q.timezone now
          monthly ← check_window store ws_id q.monthly_micros estimated "monthly" month
          or_else monthly (
              ok (record {
                allowed = true;
                reason = none;
                remaining_micros = remaining_of store ws_id q.daily_micros day;
                window_end = day.1;
                scope = "";
              }))))
