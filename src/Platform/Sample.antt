-- ===== src/Platform/Sample.antt =====
-- An instance of the double interface for the tests: exact integers with infinities and NaN.
use ic.Prelude.{◌/◌, Bool, true, false, none, if◌then◌else◌}
use ic.Prelude.Int.{ℤ, pos, ◌+ℤ◌, ◌-ℤ◌, ◌*ℤ◌, ltb_ℤ, pos_part, neg_part, sub_ℕ}
use ic.Platform.Float.{Float64}

pub data Sample : Type 0 where
  fin : ℤ → Sample
  top bottom nan : Sample

abbrev lift : (ℤ → ℤ → ℤ) → Sample → Sample → Sample
lift f (fin a) (fin b) = fin (f a b)
lift f _ _ = nan

abbrev less_sample : Sample → Sample → Bool
less_sample (fin a) (fin b) = ltb_ℤ a b
less_sample (fin a) top = true
less_sample bottom (fin b) = true
less_sample bottom top = true
less_sample _ _ = false

abbrev minus_sample : Sample → Sample → Sample
minus_sample (fin a) (fin b) = fin (a -ℤ b)
minus_sample (fin a) top = bottom
minus_sample (fin a) bottom = top
minus_sample _ _ = nan

abbrev over_int : ℤ → ℤ → ℤ
over_int a b = sub_ℕ (pos_part a / pos_part b) (neg_part a / pos_part b)

abbrev int_of : Sample → ℤ
int_of (fin a) = a
int_of _ = pos 0

abbrev is_nan_sample : Sample → Bool
is_nan_sample nan = true
is_nan_sample _ = false

abbrev is_inf_sample : Sample → Bool
is_inf_sample top = true
is_inf_sample bottom = true
is_inf_sample _ = false

instance abbrev pub sample_float : Float64 Sample
sample_float = record {
  is_nan = is_nan_sample;
  is_inf = is_inf_sample;
  less = less_sample;
  plus = lift ◌+ℤ◌;
  minus = minus_sample;
  times = lift ◌*ℤ◌;
  over = lift over_int;
  smaller = λ a b. if less_sample a b then a else b;
  greater = λ a b. if less_sample a b then b else a;
  inf = top;
  num = fin;
  is_whole = λ a. true;
  to_int = int_of;
  parse_float = λ s. none;
  parse_int = λ s. none;
}
