-- ===== src/Prelude/Same.antt =====
-- Equality tests of numbers and of texts.
use Prim.Native.Nat.{ℕ, compare, Ordering}
use Prim.Native.String.{String}
use text.Mathlib.Text.{◌==◌ as str_eq}
use text.Mathlib.TextEquality.{eq_iff as str_eq_iff}
use mathlib.Core.Path.{◌≡◌, refl}
use mathlib.Core.Logic.{◌↔◌, ◌⊎◌, ◌≢◌, inl, inr}
use mathlib.Core.Bool.{Bool, true, false}
use native.Mathlib.Omega.{arith}
use ic.Prelude.Tests.{Bool-cases}

infix 50 ◌==◌
abbrev pub ◌==◌ : ℕ → ℕ → Bool
a == b = elim (compare a b) [ Ordering.eq ↦ true | _ ↦ false ]

-- Shut: proofs use `same_iff`, and tests unfold it.
unfoldable pub same : String → String → Bool
same s t = str_eq s t

pub same_iff : (s t : String) → (same s t ≡ true) ↔ (s ≡ t)
unfolding same
same_iff s t = str_eq_iff s t

pub same_refl : (s : String) → same s s ≡ true
same_refl s = (same_iff s s).1 refl

-- To split on whether two texts are equal.
pub same-cases : (s t : String) → (same s t ≡ true) × (s ≡ t) ⊎ (same s t ≡ false) × (s ≢ t)
same-cases s t = elim (Bool-cases (same s t)) [
  | inl e ↦ inl (e, (same_iff s t).0 e)
  | inr e ↦ inr (e, λ p. ground (arith, same_iff s t))
]
