-- ===== src/Platform/Errors.antt =====
-- internal/platform/errors.go: a domain error has an HTTP status, a stable code and a message. The
-- details and the cause are for display only and are left out.
use ic.Prelude.{ℕ, ◌≡◌, refl, ◌⊎◌, inl, inr, String, Bool, true, false, Option, none, some, concat}

-- The codes that the modelled parts return.
pub data Code : Type 0 where
  invalid_request invalid_geometry invalid_node_type invalid_spec invalid_id : Code
  not_found conflict forbidden payload_too_large unknown_field internal quota_exceeded : Code

pub record DomainError : Type 0 where
  pub status : ℕ
  pub code : Code
  pub message : String

abbrev pub new_error : ℕ → Code → String → DomainError
new_error status code message = record { status = status; code = code; message = message }

abbrev pub err_not_found : String → DomainError
err_not_found what = new_error 404 Code.not_found (concat what " not found")

abbrev pub err_invalid : String → DomainError
err_invalid message = new_error 422 Code.invalid_request message

-- A Go result `(A, error)` of which one part is meant.
pub data Result (A : Type 0) : Type 0 where
  ok : A → Result A
  err : DomainError → Result A

infixl 5 ◌>>=◌
-- The error of the first part ends the whole.
abbrev pub ◌>>=◌ : {A B : Type 0} → Result A → (A → Result B) → Result B
err e >>= next = err e
ok value >>= next = next value

-- `if b { return err }`
abbrev pub refuse : Bool → DomainError → Result (Unit {0})
refuse true e = err e
refuse false e = ok tt

-- `if b { m }`
abbrev pub only_if : Bool → Result (Unit {0}) → Result (Unit {0})
only_if true m = m
only_if false m = ok tt

infixl 5 ◌>>◌
abbrev pub ◌>>◌ : {B : Type 0} → Result (Unit {0}) → Result B → Result B
m >> rest = m >>= λ _. rest

abbrev pub or_fail : {A : Type 0} → Option A → DomainError → Result A
or_fail none e = err e
or_fail (some a) e = ok a

-- What a successful bind says of its parts.
pub >>=-eq-ok :
    {A B : Type 0} (m : Result A) (next : A → Result B) {result : B}
    → (m >>= next) ≡ ok result
    → (value : A) × (m ≡ ok value) × (next value ≡ ok result)
>>=-eq-ok (err e) next h = cc
>>=-eq-ok (ok value) next h = (value, refl, h)

pub Result-cases :
    {A : Type 0} (m : Result A) → ((a : A) × (m ≡ ok a)) ⊎ ((e : DomainError) × (m ≡ err e))
Result-cases (ok a) = inl (a, refl)
Result-cases (err e) = inr (e, refl)

pub err-ok : {A : Type 0} {e : DomainError} {a : A} → err e ≡ ok a → ⊥
err-ok h = cc

pub ok-eq : {A : Type 0} {a b : A} → ok a ≡ ok b → a ≡ b
ok-eq h = cc
