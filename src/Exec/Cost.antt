-- ===== src/Exec/Cost.antt =====
-- internal/exec/usage.go and the `Usage` and `Pricing` of internal/provider/types.go: what a run
-- costs, in signed 64-bit integers that wrap around.
pub mod Exact
use ic.Prelude.{
  ℕ, suc, ◌+◌, ◌-◌, ◌*◌, ◌/◌, ◌%◌, ◌^◌, ◌≤◌, ◌<◌, ◌≡◌, refl, String, Bool, true, false, List, [],
  ◌∷◌, Option, none, some, arith, concat, zero, ltb, if◌then◌else◌, ◌&&◌,
}
use ic.Prelude.Dict.{lookup}
use ic.Prelude.Int.{ℤ, pos, negsuc, ◌+ℤ◌, ◌-ℤ◌, ◌*ℤ◌, pos_part, neg_part, ltb_ℤ}

-- The value of a signed 64-bit integer: an integer modulo 2^64, from -2^63 up.
abbrev from_bits : ℕ → ℤ
from_bits n = if ltb n (2 ^ 63) then pos n else negsuc (2 ^ 64 - n - 1)

unfoldable pub wrap64 : ℤ → ℤ
wrap64 (pos n) = from_bits (n % 2 ^ 64)
wrap64 (negsuc n) = from_bits (2 ^ 64 - 1 - n % 2 ^ 64)

-- Division rounds towards zero.
unfoldable pub div_int : ℤ → ℕ → ℤ
div_int (pos n) d = pos (n / d)
div_int (negsuc n) d = neg_of (suc n / d)
  where
    neg_of : ℕ → ℤ
    neg_of zero = pos 0
    neg_of (suc m) = negsuc m

abbrev pub add64 : ℤ → ℤ → ℤ
add64 a b = wrap64 (a +ℤ b)

abbrev pub sub64 : ℤ → ℤ → ℤ
sub64 a b = wrap64 (a -ℤ b)

abbrev pub mul64 : ℤ → ℤ → ℤ
mul64 a b = wrap64 (a *ℤ b)

pub record Usage : Type 0 where
  pub text_tokens_in : ℤ
  pub text_tokens_out : ℤ
  pub images : ℤ
  pub video_millis : ℤ
  pub audio_millis : ℤ
  pub cost_micros : ℤ

unfoldable pub add_usage : Usage → Usage → Usage
add_usage u o = record {
  text_tokens_in = add64 u.text_tokens_in o.text_tokens_in;
  text_tokens_out = add64 u.text_tokens_out o.text_tokens_out;
  images = add64 u.images o.images;
  video_millis = add64 u.video_millis o.video_millis;
  audio_millis = add64 u.audio_millis o.audio_millis;
  cost_micros = add64 u.cost_micros o.cost_micros;
}

pub record Pricing : Type 0 where
  pub text_input_per_m_tok : ℤ
  pub text_output_per_m_tok : ℤ
  pub image_per_unit : ℤ
  pub video_per_second : ℤ
  pub audio_per_second : ℤ

pub record PricingTable : Type 0 where
  pub default : Pricing
  pub by_model : List (String × Pricing)

unfoldable pub pricing_for : PricingTable → String → String → Pricing
pricing_for t provider_id model = elim (lookup (concat (concat provider_id "/") model) t.by_model) [
  | some p ↦ p
  | none ↦ elim (lookup model t.by_model) [ some p ↦ p | none ↦ t.default ]
]

abbrev pub positive : ℤ → Bool
positive a = ltb_ℤ (pos 0) a

-- `if n > 0 && price > 0 { total += n * price / unit }`
unfoldable pub charge : ℕ → ℤ → ℤ → ℤ → ℤ
charge unit n price total =
    if positive n && positive price then add64 total (div_int (mul64 n price) unit) else total

unfoldable pub compute_cost : Pricing → Usage → ℤ
compute_cost p u = charge 1000 u.audio_millis p.audio_per_second (
    charge 1000 u.video_millis p.video_per_second (
      charge 1 u.images p.image_per_unit (
        charge 1000000 u.text_tokens_out p.text_output_per_m_tok
          (charge 1000000 u.text_tokens_in p.text_input_per_m_tok (pos 0)))))

unfoldable pub apply_cost : Pricing → Usage → Usage
apply_cost p u = record u { cost_micros = compute_cost p u }
