-- ===== src/Exec/Cost/Exact.antt =====
-- internal/exec/usage.go, `ComputeCost`: the cost against its formula on numbers that do not overflow.
use ic.Prelude.{ℕ, zero, suc, ◌+◌, ◌*◌, ◌/◌, ◌^◌, ◌≤◌, ◌<◌, ◌≡◌, refl, arith, ◌∙◌, ap, sym}
use native.Mathlib.Nat.{zero-div, zero-mul, add-mul, div-le_self}
use ic.Prelude.Int.{pos, ◌+ℤ◌, ◌*ℤ◌, pos_part}
use ic.Exec.Cost.{Usage, Pricing, add_usage, wrap64, div_int, add64, mul64, charge, compute_cost}

wrap64-pos : (n : ℕ) → n < 2 ^ 63 → wrap64 (pos n) ≡ pos n
unfolding wrap64
wrap64-pos n h = ground arith

mul64-pos : (a b : ℕ) → a * b < 2 ^ 63 → mul64 (pos a) (pos b) ≡ pos (a * b)
unfolding ◌*ℤ◌
mul64-pos a b h =
    let e : pos a *ℤ pos b ≡ pos (a * b) = ground arith in ap wrap64 e ∙ wrap64-pos (a * b) h

pub add64-pos : (a b : ℕ) → a + b < 2 ^ 63 → add64 (pos a) (pos b) ≡ pos (a + b)
unfolding ◌+ℤ◌
add64-pos a b h =
    let e : pos a +ℤ pos b ≡ pos (a + b) = ground arith in ap wrap64 e ∙ wrap64-pos (a + b) h

zero_div : (k d : ℕ) → 0 * k / suc d ≡ 0
zero_div k d = ap (λ m. m / suc d) (zero-mul k) ∙ zero-div (suc d)

mul_zero : (n : ℕ) → n * 0 ≡ 0
mul_zero n = omega arith

charge-pos :
    (d n price total : ℕ)
    → total + n * price < 2 ^ 63
    → charge (suc d) (pos n) (pos price) (pos total) ≡ pos (total + n * price / suc d)
unfolding charge div_int
charge-pos d zero price total h = let e : 0 * price / suc d ≡ 0 = zero_div price d in ground arith
charge-pos d (suc n) zero total h =
    let e : suc n * 0 / suc d ≡ 0 = ap (λ k. k / suc d) (mul_zero (suc n)) ∙ zero_div 0 d in
    ground arith
charge-pos d (suc n) (suc price) total h =
    let m : mul64 (pos (suc n)) (pos (suc price)) ≡ pos (suc n * suc price) =
      mul64-pos (suc n) (suc price) (omega arith) in
    let start : charge (suc d) (pos (suc n)) (pos (suc price)) (pos total)
        ≡ add64 (pos total) (div_int (mul64 (pos (suc n)) (pos (suc price))) (suc d)) =
      ground arith in
    start
    ∙ ap (λ k. add64 (pos total) (div_int k (suc d))) m
    ∙ add64-pos total (suc n * suc price / suc d)
        (let le = div-le_self (suc n * suc price) (suc d) in omega arith)

module _ (text_in text_out image video audio : ℕ) where
  abbrev pub prices : Pricing
  prices = record {
    text_input_per_m_tok = pos text_in;
    text_output_per_m_tok = pos text_out;
    image_per_unit = pos image;
    video_per_second = pos video;
    audio_per_second = pos audio;
  }

  -- The cost without bounds, for amounts that are not negative.
  unfoldable pub exact_cost : ℕ → ℕ → ℕ → ℕ → ℕ → ℕ
  exact_cost tokens_in tokens_out images video_millis audio_millis =
      tokens_in * text_in / 1000000
      + tokens_out * text_out / 1000000
      + images * image / 1
      + video_millis * video / 1000
      + audio_millis * audio / 1000

abbrev pub amounts : ℕ → ℕ → ℕ → ℕ → ℕ → Usage
amounts tokens_in tokens_out images video_millis audio_millis = record {
  text_tokens_in = pos tokens_in;
  text_tokens_out = pos tokens_out;
  images = pos images;
  video_millis = pos video_millis;
  audio_millis = pos audio_millis;
  cost_micros = pos 0;
}

-- Where the five products add up to less than 2^63, no amount is negative and no price is, the cost is
-- the sum of the five products, each divided by the size of its unit and rounded down.
pub compute_cost-exact :
    (p q r s t a b c d e : ℕ)
    → a * p + b * q + c * r + d * s + e * t < 2 ^ 63
    → compute_cost (prices p q r s t) (amounts a b c d e) ≡ pos (exact_cost p q r s t a b c d e)
unfolding compute_cost exact_cost
compute_cost-exact p q r s t a b c d e h =
    let l1 = div-le_self (a * p) 1000000 in
    let l2 = div-le_self (b * q) 1000000 in
    let l3 = div-le_self (c * r) 1 in
    let l4 = div-le_self (d * s) 1000 in
    let t1 = 0 + a * p / 1000000 in
    let t2 = t1 + b * q / 1000000 in
    let t3 = t2 + c * r / 1 in
    let t4 = t3 + d * s / 1000 in
    rw (charge-pos 999999 a p 0 (omega arith)) (
      rw (charge-pos 999999 b q t1 (omega arith)) (
        rw (charge-pos 0 c r t2 (omega arith)) (
          rw (charge-pos 999 d s t3 (omega arith))
            (charge-pos 999 e t t4 (omega arith) ∙ ap pos (omega arith)))))

per_million :
    (m n k : ℕ)
    → k ≡ m + n
    → (m / 1000000 + n / 1000000 ≤ k / 1000000) × (k / 1000000 ≤ m / 1000000 + n / 1000000 + 1)
per_million m n k h = (omega arith, omega arith)

per_thousand :
    (m n k : ℕ)
    → k ≡ m + n
    → (m / 1000 + n / 1000 ≤ k / 1000) × (k / 1000 ≤ m / 1000 + n / 1000 + 1)
per_thousand m n k h = (omega arith, omega arith)

exact_cost-add :
    (p q r s t a b c d e a' b' c' d' e' : ℕ)
    → (exact_cost p q r s t a b c d e + exact_cost p q r s t a' b' c' d' e'
        ≤ exact_cost p q r s t (a + a') (b + b') (c + c') (d + d') (e + e'))
      × (exact_cost p q r s t (a + a') (b + b') (c + c') (d + d') (e + e')
          ≤ exact_cost p q r s t a b c d e + exact_cost p q r s t a' b' c' d' e' + 4)
unfolding exact_cost
exact_cost-add p q r s t a b c d e a' b' c' d' e' =
    let i = per_million (a * p) (a' * p) ((a + a') * p) (add-mul a a' p) in
    let j = per_million (b * q) (b' * q) ((b + b') * q) (add-mul b b' q) in
    let k = add-mul c c' r in
    let l = per_thousand (d * s) (d' * s) ((d + d') * s) (add-mul d d' s) in
    let m = per_thousand (e * t) (e' * t) ((e + e') * t) (add-mul e e' t) in
    (omega (arith, i, j, k, l, m), omega (arith, i, j, k, l, m))

add_usage-amounts :
    (a b c d e a' b' c' d' e' : ℕ)
    → a + a' < 2 ^ 63
    → b + b' < 2 ^ 63
    → c + c' < 2 ^ 63
    → d + d' < 2 ^ 63
    → e + e' < 2 ^ 63
    → add_usage (amounts a b c d e) (amounts a' b' c' d' e')
      ≡ amounts (a + a') (b + b') (c + c') (d + d') (e + e')
unfolding add_usage
add_usage-amounts a b c d e a' b' c' d' e' ha hb hc hd he =
    rw
      (
        add64-pos a a' ha,
        add64-pos b b' hb,
        add64-pos c c' hc,
        add64-pos d d' hd,
        add64-pos e e' he,
        add64-pos 0 0 (omega arith),
      )
      refl

pos-injective : (m n : ℕ) → pos m ≡ pos n → m ≡ n
pos-injective m n h = ap pos_part h

-- For amounts and prices that are not negative, where no sum of two amounts reaches 2^63 and the
-- products of the sums add up to less than 2^63: the cost of two usages together is at least the sum
-- of their costs, and at most four more, one for each charge that is rounded down.
pub compute_cost-add_usage :
    (p q r s t a b c d e a' b' c' d' e' x y z : ℕ)
    → a + a' < 2 ^ 63
    → b + b' < 2 ^ 63
    → c + c' < 2 ^ 63
    → d + d' < 2 ^ 63
    → e + e' < 2 ^ 63
    → (a + a') * p + (b + b') * q + (c + c') * r + (d + d') * s + (e + e') * t < 2 ^ 63
    → compute_cost (prices p q r s t) (amounts a b c d e) ≡ pos x
    → compute_cost (prices p q r s t) (amounts a' b' c' d' e') ≡ pos y
    → compute_cost (prices p q r s t) (add_usage (amounts a b c d e) (amounts a' b' c' d' e'))
      ≡ pos z
    → (x + y ≤ z) × (z ≤ x + y + 4)
compute_cost-add_usage p q r s t a b c d e a' b' c' d' e' x y z ha hb hc hd he h hx hy hz =
    let i = add-mul a a' p in
    let j = add-mul b b' q in
    let k = add-mul c c' r in
    let l = add-mul d d' s in
    let m = add-mul e e' t in
    let both = add_usage-amounts a b c d e a' b' c' d' e' ha hb hc hd he in
    let ex =
      pos-injective _ x
        (sym (compute_cost-exact p q r s t a b c d e (omega (arith, h, i, j, k, l, m))) ∙ hx) in
    let ey =
      pos-injective _ y (
        sym (compute_cost-exact p q r s t a' b' c' d' e' (omega (arith, h, i, j, k, l, m))) ∙ hy) in
    let ez = pos-injective _ z (
      sym (compute_cost-exact p q r s t (a + a') (b + b') (c + c') (d + d') (e + e') h)
      ∙ sym (ap (compute_cost (prices p q r s t)) both)
      ∙ hz) in
    let (low, high) = exact_cost-add p q r s t a b c d e a' b' c' d' e' in
    (omega (arith, low, ex, ey, ez), omega (arith, high, ex, ey, ez))
