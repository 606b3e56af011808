-- ===== src/Sandbox/Doubling.antt =====
-- internal/sandbox/eval.go: the operator + puts texts together without the limit that string(),
-- join() and replace() have, so a short script makes a text that is long beyond any limit.
use ic.Prelude.{
  ℕ, zero, suc, ◌+◌, ◌*◌, ◌^◌, ◌≡◌, ◌∙◌, ap, String, List, Option, none, some, len, concat, arith,
  false,
}
use package.text.Mathlib.TextPositions.{len-append}
use native.Mathlib.Nat.{pow-suc}
use ic.Prelude.Int.{ℤ, pos, ◌-ℤ◌}
use ic.Prelude.Dict.{lookup, insert, lookup-insert_same}
use ic.Platform.Float.{Float64}
use ic.Graph.Document.{Spec, Json, text}
use ic.Sandbox.Syntax.{ident, binary, BinaryOp, Stmts, no_stmts, stmt, assign}
use ic.Sandbox.Values.{Host, to_text}
use ic.Sandbox.Operators.{binary_value}
use ic.Sandbox.Machine.{M, Interp, gave, give, after_run, Setting, Clock, tick, check_budget}
use ic.Sandbox.Eval.{
  eval, exec_stmt, exec_block, eval_ident, eval_binary, store_local, and_then_stmt,
}

-- `x = x + x`, so many times.
unfoldable pub doublings : {F : Type 0} → ℕ → Stmts F
doublings zero = no_stmts
doublings (suc n) = stmt (assign "x" (binary BinaryOp.add (ident "x") (ident "x"))) (doublings n)

-- The text after so many doublings.
unfoldable pub doubled : ℕ → String → String
doubled zero t = t
doubled (suc n) t = doubled n (concat t t)

twice : (p n : ℕ) → p * (n + n) ≡ p * 2 * n
twice p n = grind arith

len-doubled : (n : ℕ) (t : String) → len (doubled n t) ≡ 2 ^ n * len t
unfolding doubled
len-doubled zero t = omega arith
len-doubled (suc n) t =
    rw (len-doubled n (concat t t)) (rw (len-append t t) (rw (pow-suc 2 n) (twice (2 ^ n) (len t))))

abbrev pub IsQuiet : Clock → Type 0
IsQuiet clock = (b : ℤ) → (clock.late b ≡ false) × (clock.ended b ≡ false)

module _ {F : Type 0} where
  abbrev at : Spec F → ℕ → List String → Interp F
  at local budget notes = record { local = local; budget = pos budget; notes = notes }

  tick_quiet :
      (clock : Clock) (local : Spec F) (k : ℕ) (notes : List String)
      → IsQuiet clock
      → tick clock (at local (suc (suc k)) notes) ≡ gave tt (at local (suc k) notes)
  unfolding tick check_budget ◌-ℤ◌
  tick_quiet clock local k notes quiet =
      ground (arith, (quiet (pos (suc k))).0, (quiet (pos (suc k))).1)

module _ {F : Type 0} ⦃fl : Float64 F⦄ ⦃host : Host F⦄ (s : Setting F)
    (quiet : IsQuiet s.clock) where
  eval_x :
      (local : Spec F) (k : ℕ) (notes : List String) (t : String)
      → lookup "x" local ≡ some (text t)
      → eval s (ident "x") (at local (suc (suc k)) notes) ≡ gave (text t) (at local (suc k) notes)
  unfolding eval eval_ident
  eval_x local k notes t h = rw (tick_quiet s.clock local k notes quiet) (rw h)

  double_x :
      (local : Spec F) (k : ℕ) (notes : List String) (t : String)
      → lookup "x" local ≡ some (text t)
      → exec_stmt s
          (assign "x" (binary BinaryOp.add (ident "x") (ident "x")))
          (at local (suc (suc (suc (suc k)))) notes)
        ≡ gave none (at (insert "x" (text (concat t t)) local) (suc k) notes)
  unfolding exec_stmt eval store_local eval_binary eval_ident binary_value to_text
  double_x local k notes t h = rw (tick_quiet s.clock local (suc (suc k)) notes quiet) (
      rw (tick_quiet s.clock local (suc k) notes quiet)
        (rw h (rw (tick_quiet s.clock local k notes quiet) (rw h))))

  exec_block-again :
      (n : ℕ) (local : Spec F) (k : ℕ) (notes : List String) (t : String)
      → lookup "x" local ≡ some (text t)
      → exec_block s (doublings (suc n)) (at local (suc (suc (suc (suc (suc k))))) notes)
        ≡ exec_block s (doublings n) (at (insert "x" (text (concat t t)) local) (suc k) notes)
  unfolding exec_block doublings and_then_stmt
  exec_block-again n local k notes t h =
      rw (tick_quiet s.clock local (suc (suc (suc k))) notes quiet) (
        ap
          (λ r. after_run r (λ (o : Option (Json F)). elim o as (λ _. M F (Option (Json F))) [
            | none ↦ exec_block s (doublings n)
            | some v ↦ give (some v)
          ]))
          (double_x local k notes t h))

  -- Where x is a text and the clock says nothing, so many repetitions of `x = x + x` succeed within
  -- four steps each, and x is then a text of two to the power of their number times the length:
  -- within the default budget, far beyond every limit on texts.
  pub exec_block-doublings :
      (n : ℕ) (local : Spec F) (k : ℕ) (notes : List String) (t : String)
      → lookup "x" local ≡ some (text t)
      → (after : Spec F) × (exec_block s (doublings n) (at local (n * 4 + suc k) notes)
          ≡ gave none (at after (suc k) notes))
        × (lookup "x" after ≡ some (text (doubled n t)))
        × (len (doubled n t) ≡ 2 ^ n * len t)
  unfolding doubled exec_block doublings
  exec_block-doublings zero local k notes t h =
      (local, ap (λ b. gave none (at local b notes)) (omega arith), h, len-doubled zero t)
  exec_block-doublings (suc n) local k notes t h =
      let (after, e, found, _) =
        exec_block-doublings n (insert "x" (text (concat t t)) local) k notes (concat t t)
          (lookup-insert_same "x" (text (concat t t)) local) in
      (
        after,
        ap (λ b. exec_block s (doublings (suc n)) (at local b notes)) (omega arith)
            ∙ exec_block-again n local (n * 4 + k) notes t h
            ∙ ap
                (λ b.
                  exec_block s (doublings n) (at (insert "x" (text (concat t t)) local) b notes))
                (omega arith)
            ∙ e,
        found,
        len-doubled (suc n) t,
      )
