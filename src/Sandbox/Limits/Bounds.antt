-- ===== src/Sandbox/Limits/Bounds.antt =====
-- internal/sandbox/sandbox.go, `Normalize`: limits can be tightened and not loosened.
use ic.Prelude.{ℕ, ◌*◌, ◌≡◌, ◌≤◌, ◌<◌, arith}
use ic.Prelude.Int.{ℤ, pos, ◌≤ℤ◌, ◌*ℤ◌}
use ic.Sandbox.Limits.{Limits, normalize, or_default}

-- v lies between one and the most that may be asked for.
abbrev pub Lies : ℤ → ℤ → Type 0
Lies v most = (pos 1 ≤ℤ v) × (v ≤ℤ most)

or_default-Lies :
    (v : ℤ) (d k : ℕ) → 0 < d → d ≤ d * k → Lies (or_default v (pos d) (pos k)) (pos (d * k))
unfolding ◌*ℤ◌
or_default-Lies v d k p q = ground arith

or_default_self : (v : ℤ) (d k : ℕ) → Lies v (pos (d * k)) → or_default v (pos d) (pos k) ≡ v
unfolding ◌*ℤ◌
or_default_self v d k h = ground arith

-- Whatever is asked for, each limit in force is at least one and at most a hard bound: a second, two
-- hundred thousand steps, two megabytes of output and half a megabyte for a text. Limits that went
-- through once are taken as they are.
pub normalize-bounds :
    (l : Limits)
    → Lies (normalize l).timeout (pos 1000000000)
      × Lies (normalize l).max_steps (pos 200000)
      × Lies (normalize l).max_output_bytes (pos 2097152)
      × Lies (normalize l).max_string_bytes (pos 524288)
      × (normalize (normalize l) ≡ normalize l)
unfolding normalize ◌*ℤ◌
normalize-bounds l =
    let a = or_default-Lies l.timeout 50000000 20 (omega arith) (omega arith) in
    let b = or_default-Lies l.max_steps 20000 10 (omega arith) (omega arith) in
    let c = or_default-Lies l.max_output_bytes 262144 8 (omega arith) (omega arith) in
    let d = or_default-Lies l.max_string_bytes 65536 8 (omega arith) (omega arith) in
    (
      a,
      b,
      c,
      d,
      λ i. record {
        timeout = or_default_self _ 50000000 20 a i;
        max_steps = or_default_self _ 20000 10 b i;
        max_output_bytes = or_default_self _ 262144 8 c i;
        max_string_bytes = or_default_self _ 65536 8 d i;
      },
    )
