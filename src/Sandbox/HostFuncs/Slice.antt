-- ===== src/Sandbox/HostFuncs/Slice.antt =====
-- internal/sandbox/hostfuncs.go, `clampRange`: a slice never reads out of range.
use ic.Prelude.{ℕ, ◌≡◌, arith}
use ic.Prelude.Int.{ℤ, pos, ◌≤ℤ◌}
use ic.Sandbox.HostFuncs.{clamp_range}

-- The range that slice() reads lies within the text or the list, and does not end before it begins,
-- whatever its arguments are; a range that was clamped once is taken as it is.
pub clamp_range-bounds :
    (n : ℕ) (start stop : ℤ)
    → (pos 0 ≤ℤ (clamp_range (pos n) start stop).0)
      × ((clamp_range (pos n) start stop).0 ≤ℤ (clamp_range (pos n) start stop).1)
      × ((clamp_range (pos n) start stop).1 ≤ℤ pos n)
      × (clamp_range (pos n) (clamp_range (pos n) start stop).0 (clamp_range (pos n) start stop).1
          ≡ clamp_range (pos n) start stop)
unfolding clamp_range
clamp_range-bounds n start stop = (ground arith, ground arith, ground arith, ground arith)
