-- ===== src/Graph/Rebase/Safe.antt =====
-- internal/graph/service.go, `rebaseable`: what the operations that it lets through may not do to the
-- operations in flight.
use ic.Prelude.{◌≡◌, ◌≢◌, String, false, some, In}
use ic.Graph.Operation.{Op}
use ic.Graph.Rebase.{Touch, geom, spec}
use ic.Graph.Rebase.Footprints.{overwrites, target, comes_or_goes, IsGeometry, is_global, removes}

module _ {F : Type 0} where
  -- What a late operation may not do to an operation in flight.
  pub record Compatible (op prior : Op F) : Type 0 where
    pub fields_apart : (t : Touch) → In t (overwrites op) → In t (overwrites prior) → IsGeometry t
    pub still_there : (n : String) → target op ≡ some n → comes_or_goes prior ≢ some n
    pub not_lost :
        (n : String)
        → removes op ≡ some n
        → (¬ In (spec n) (overwrites prior)) × (¬ In (geom n) (overwrites prior))
    pub late_local : is_global op ≡ false
    pub prior_local : is_global prior ≡ false
