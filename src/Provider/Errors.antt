-- ===== src/Provider/Errors.antt =====
-- internal/provider/errors.go: the class of an upstream error decides whether it is tried again. The
-- messages are for display and are left out.
use ic.Prelude.{
  ℕ, ◌≡◌, ◌≤◌, ◌↔◌, ◌⊎◌, String, Bool, true, false, ◌||◌, [], ◌∷◌, any, contains, leb, ◌==◌,
  if◌then◌else◌, arith,
}
use ic.Prelude.Int.{ℤ, pos}
use ic.Platform.Errors.{Code, DomainError}

pub data ErrorClass : Type 0 where
  transient rate_limited permanent content_policy canceled : ErrorClass

pub record ProviderError : Type 0 where
  pub class : ErrorClass
  pub code : String
  pub http_status : ℕ
  pub retry_after : ℤ

unfoldable pub retryable : ProviderError → Bool
retryable e = elim (e.class) [ transient ↦ true | rate_limited ↦ true | _ ↦ false ]

abbrev pub of_class : ErrorClass → String → ProviderError
of_class class code = record { class = class; code = code; http_status = 0; retry_after = pos 0 }

-- The codes of internal/platform/errors.go as texts.
abbrev pub code_text : Code → String
code_text Code.invalid_request = "invalid_request"
code_text Code.invalid_geometry = "invalid_geometry"
code_text Code.invalid_node_type = "invalid_node_type"
code_text Code.invalid_spec = "invalid_spec"
code_text Code.invalid_id = "invalid_id"
code_text Code.not_found = "not_found"
code_text Code.conflict = "conflict"
code_text Code.forbidden = "forbidden"
code_text Code.payload_too_large = "payload_too_large"
code_text Code.unknown_field = "unknown_field"
code_text Code.internal = "internal"
code_text Code.quota_exceeded = "quota_exceeded"

-- `lower` is strings.ToLower.
unfoldable pub is_content_policy : (String → String) → String → Bool
is_content_policy lower body =
    any (contains (lower body))
      ("content policy" ∷ "content_policy" ∷ "safety" ∷ "moderation" ∷ "blocked" ∷ "violat" ∷ [])

abbrev with_status : ErrorClass → String → ℕ → ProviderError
with_status class code status = record (of_class class code) { http_status = status }

unfoldable pub classify_http : (String → String) → ℕ → String → ProviderError
classify_http lower status body =
    if status == 408 || status == 504
    then with_status transient "upstream_timeout" status
    else if status == 429
    then with_status rate_limited "upstream_rate_limited" status
    else if leb 500 status
    then with_status transient "upstream_error" status
    else if status == 401 || status == 403
    then with_status permanent "upstream_unauthorized" status
    else if status == 404
    then with_status permanent "upstream_not_found" status
    else if status == 400 || status == 422
    then (if is_content_policy lower body
        then with_status content_policy "content_policy" status
        else with_status permanent "upstream_invalid" status)
    else with_status permanent "upstream_invalid" status

-- An HTTP answer is worth a retry exactly for a timeout, a rate limit and a server error.
pub retryable-classify_http :
    (lower : String → String) (status : ℕ) (body : String)
    → (retryable (classify_http lower status body) ≡ true)
      ↔ ((status ≡ 408) ⊎ ((status ≡ 429) ⊎ (500 ≤ status)))
unfolding retryable classify_http
retryable-classify_http lower status body = ground arith

-- What an adapter's call or another part of a step can fail with: an error of the upstream, an error
-- of this program, an end of the context, the cancellation of the run, or any other error.
pub data CallError : Type 0 where
  upstream : ProviderError → CallError
  domain : DomainError → CallError
  ended run_canceled other : CallError

unfoldable pub classify_transport : CallError → ProviderError
classify_transport ended = of_class canceled "interrupted"
classify_transport _ = of_class transient "upstream_unreachable"
