-- ===== src/Platform/Float.antt =====
-- IEEE 754 double precision, as the Go code uses it. The arithmetic is not the repository's, so it
-- is a parameter: the operations on a type `F`, with no law assumed.
use ic.Prelude.{String, Bool, ◌||◌, Option}
use ic.Prelude.Int.{ℤ}

pub record Float64 (F : Type 0) : Type 0 where
  pub is_nan : F → Bool
  pub is_inf : F → Bool
  pub less : F → F → Bool
  pub plus : F → F → F
  pub minus : F → F → F
  pub times : F → F → F
  pub over : F → F → F
  pub smaller : F → F → F
  pub greater : F → F → F
  pub inf : F
  -- The double nearest to an integer constant.
  pub num : ℤ → F
  -- math.Trunc(x) == x
  pub is_whole : F → Bool
  -- int(x)
  pub to_int : F → ℤ
  -- json.Number's Float64 and Int64, on the literal's text.
  pub parse_float : String → Option F
  pub parse_int : String → Option ℤ

module _ {F : Type 0} ⦃fl : Float64 F⦄ where
  infix 50 ◌<f◌
  infixl 65 ◌+f◌ ◌-f◌
  infixl 70 ◌*f◌ ◌/f◌
  abbrev pub ◌<f◌ : F → F → Bool
  a <f b = fl.less a b

  abbrev pub ◌+f◌ : F → F → F
  a +f b = fl.plus a b

  abbrev pub ◌-f◌ : F → F → F
  a -f b = fl.minus a b

  abbrev pub ◌*f◌ : F → F → F
  a *f b = fl.times a b

  abbrev pub ◌/f◌ : F → F → F
  a /f b = fl.over a b

  -- math.IsNaN(x) || math.IsInf(x, 0)
  abbrev pub not_finite : F → Bool
  not_finite a = fl.is_nan a || fl.is_inf a

  -- a < lo || a > hi
  abbrev pub outside : F → F → F → Bool
  outside lo hi a = a <f lo || hi <f a
