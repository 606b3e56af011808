-- ===== src/Sandbox/Limits.antt =====
-- internal/sandbox/sandbox.go: the limits of a script and the classes of its errors. The details of
-- the errors are for display and are left out, but for the name of a function that is not there.
pub mod Bounds
use ic.Prelude.{Bool, true, false, String, not, ◌||◌, if◌then◌else◌}
use ic.Prelude.Int.{ℤ, pos, ◌*ℤ◌, ltb_ℤ}

-- Times are in nanoseconds.
pub record Limits : Type 0 where
  pub timeout : ℤ
  pub max_steps : ℤ
  pub max_output_bytes : ℤ
  pub max_string_bytes : ℤ

abbrev pub default_limits : Limits
default_limits = record {
  timeout = pos 50000000;
  max_steps = pos 20000;
  max_output_bytes = pos 262144;
  max_string_bytes = pos 65536;
}

-- `v <= 0 || v > default*times`
abbrev is_outside : ℤ → ℤ → ℤ → Bool
is_outside v default times = not (ltb_ℤ (pos 0) v) || ltb_ℤ (default *ℤ times) v

abbrev pub or_default : ℤ → ℤ → ℤ → ℤ
or_default v default times = if is_outside v default times then default else v

unfoldable pub normalize : Limits → Limits
normalize l = record {
  timeout = or_default l.timeout default_limits.timeout (pos 20);
  max_steps = or_default l.max_steps default_limits.max_steps (pos 10);
  max_output_bytes = or_default l.max_output_bytes default_limits.max_output_bytes (pos 8);
  max_string_bytes = or_default l.max_string_bytes default_limits.max_string_bytes (pos 8);
}

pub data ErrorCode : Type 0 where
  script_syntax script_forbidden script_runtime script_timeout : ErrorCode
  script_limit script_output_shape : ErrorCode

pub data Fault : Type 0 where
  fault : ErrorCode → Fault
  unknown_call : String → Fault

abbrev pub code_of : Fault → ErrorCode
code_of (fault c) = c
code_of (unknown_call name) = ErrorCode.script_forbidden

abbrev pub is_forbidden : Fault → Bool
is_forbidden f = elim (code_of f) [ ErrorCode.script_forbidden ↦ true | _ ↦ false ]
