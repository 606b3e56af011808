-- ===== src/Sandbox/Machine.antt =====
-- internal/sandbox/eval.go: the state of the interpreter, and the step that every expression and
-- statement pays for.
use ic.Prelude.{◌%◌, String, Bool, not, ◌&&◌, List, ◌==◌, if◌then◌else◌}
use ic.Prelude.Int.{ℤ, pos, ◌-ℤ◌, ltb_ℤ, pos_part}
use ic.Graph.Document.{Spec}
use ic.Sandbox.Limits.{Fault, fault, ErrorCode, Limits}
use ic.Sandbox.Values.{Answer, value, failed}

-- What a step sees of the world: whether the time is up and whether the context has ended, at each
-- budget that is left.
pub record Clock : Type 0 where
  pub late : ℤ → Bool
  pub ended : ℤ → Bool

-- What no step of a run changes.
pub record Setting (F : Type 0) : Type 0 where
  pub env : Spec F
  pub limit : Limits
  pub clock : Clock

-- What a run changes.
pub record Interp (F : Type 0) : Type 0 where
  pub local : Spec F
  pub budget : ℤ
  pub notes : List String

-- A value or a fault, each with the state that it leaves.
pub data Ran (F A : Type 0) : Type 0 where
  gave : A → Interp F → Ran F A
  stuck : Fault → Interp F → Ran F A

abbrev pub M : Type 0 → Type 0 → Type 0
M F A = Interp F → Ran F A

abbrev pub after_run : {F A B : Type 0} → Ran F A → (A → M F B) → Ran F B
after_run (gave a st) next = next a st
after_run (stuck f st) next = stuck f st

infixl 5 ◌>>=◌ ◌>>◌
abbrev pub ◌>>=◌ : {F A B : Type 0} → M F A → (A → M F B) → M F B
(m >>= next) st = after_run (m st) next

abbrev pub ◌>>◌ : {F B : Type 0} → M F (Unit {0}) → M F B → M F B
m >> rest = m >>= λ _. rest

abbrev pub give : {F A : Type 0} → A → M F A
give a st = gave a st

abbrev pub fail : {F A : Type 0} → ErrorCode → M F A
fail c st = stuck (fault c) st

-- A pure answer as a step.
abbrev pub answer_with : {F A : Type 0} → Answer A → M F A
answer_with (value a) st = gave a st
answer_with (failed f) st = stuck f st

-- The verdict on a budget of which a step has been paid.
unfoldable pub check_budget : {F : Type 0} → Clock → M F (Unit {0})
check_budget clock st =
    if not (ltb_ℤ (pos 0) st.budget)
    then stuck (fault ErrorCode.script_limit) st
    else if (pos_part st.budget % 256 == 0) && clock.late st.budget
    then stuck (fault ErrorCode.script_timeout) st
    else if clock.ended st.budget
    then stuck (fault ErrorCode.script_timeout) st
    else gave tt st

-- `tick(1)`
unfoldable pub tick : {F : Type 0} → Clock → M F (Unit {0})
tick clock st = check_budget clock (record st { budget = st.budget -ℤ pos 1 })
