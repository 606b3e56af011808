-- ===== src/Sandbox/Work.antt =====
-- internal/sandbox/eval.go: how many steps of the budget a script takes at the least, told by its tree.
use ic.Prelude.{ℕ, suc, ◌+◌, ◌≤◌, arith, leb, if◌then◌else◌}
use ic.Prelude.Int.{pos, pos_part, neg_part, -ℤ_parts}
use ic.Sandbox.Values.{Answer, value, failed}
use ic.Sandbox.Machine.{
  M, Interp, Ran, gave, stuck, Clock, tick, give, ◌>>=◌, ◌>>◌, answer_with, after_run,
}
use ic.Sandbox.Syntax.{
  BinaryOp, Expr, lit, ident, member, index, unary, binary, ternary, call, array_of, object_of,
  Exprs, no_exprs, expr, Props, no_props, prop, Stmt, assign, if_stmt, return_stmt, expr_stmt,
  Stmts, no_stmts, stmt,
}
use ic.Sandbox.Logic.Defs.{Ends, tick-Ends}
use ic.Sandbox.Unknown.Walk.{Any}

abbrev pub least : ℕ → ℕ → ℕ
least a b = if leb a b then a else b

-- The right operand of &&, || and ?? need not be evaluated.
abbrev pub strict : BinaryOp → ℕ → ℕ
strict BinaryOp.and n = 0
strict BinaryOp.or n = 0
strict BinaryOp.coalesce n = 0
strict op n = n

-- The statement after one that may return need not be reached.
abbrev pub onward : {F : Type 0} → Stmt F → ℕ → ℕ
onward (assign x e) n = n
onward (expr_stmt e) n = n
onward t n = 0

module _ {F : Type 0} where
  -- Every expression and every statement that is surely evaluated counts one. A function may leave its
  -- arguments alone.
  unfoldable mutual
    pub work_expr : Expr F → ℕ
    work_expr (lit v) = 1
    work_expr (ident n) = 1
    work_expr (member obj n) = suc (work_expr obj)
    work_expr (index obj i) = suc (work_expr obj + work_expr i)
    work_expr (unary op e) = suc (work_expr e)
    work_expr (binary op l r) = suc (work_expr l + strict op (work_expr r))
    work_expr (ternary c t o) = suc (work_expr c + least (work_expr t) (work_expr o))
    work_expr (call fn args) = 1
    work_expr (array_of items) = suc (work_exprs items)
    work_expr (object_of props) = suc (work_props props)

    pub work_exprs : Exprs F → ℕ
    work_exprs no_exprs = 0
    work_exprs (expr e es) = work_expr e + work_exprs es

    pub work_props : Props F → ℕ
    work_props no_props = 0
    work_props (prop k e ps) = work_expr e + work_props ps

  unfoldable mutual
    unfolding work_expr

    pub work_stmt : Stmt F → ℕ
    work_stmt (assign x e) = work_expr e
    work_stmt (if_stmt c t o) = work_expr c + least (work_block t) (work_block o)
    work_stmt (return_stmt e) = work_expr e
    work_stmt (expr_stmt e) = work_expr e

    pub work_block : Stmts F → ℕ
    work_block no_stmts = 0
    work_block (stmt t ts) = suc (work_stmt t + onward t (work_block ts))

-- At least `k` has been taken off the budget.
abbrev pub Spent : {F : Type 0} → ℕ → Interp F → Interp F → Type 0
Spent k before after =
    pos_part after.budget + neg_part before.budget + k
    ≤ pos_part before.budget + neg_part after.budget

-- A step that comes back with a value of `G` has taken at least `k`.
abbrev pub Pays : {F A : Type 0} → (A → Type 0) → ℕ → M F A → Type 0
Pays {F} G k m = (st : Interp F) → Ends (λ a st'. G a × Spent k st st') (λ f. Unit {0}) (m st)

module _ {F : Type 0} where
  pub le-Pays :
      {A : Type 0} (G H : A → Type 0) (j k : ℕ) (m : M F A)
      → j ≤ k
      → ((a : A) → G a → H a)
      → Pays G k m
      → Pays H j m
  le-Pays {A} G H j k m h g p st = go (m st) (p st)
    where
      go :
          (r : Ran F A)
          → Ends (λ a st'. G a × Spent k st st') (λ f. Unit {0}) r
          → Ends (λ a st'. H a × Spent j st st') (λ f. Unit {0}) r
      go (gave a st') (x, y) = (g a x, omega (arith, y, h))
      go (stuck f st') u = u

  pub bind-Pays :
      {A B : Type 0} (G : A → Type 0) (H : B → Type 0) (n j k : ℕ) (m : M F A) (next : A → M F B)
      → n ≤ j + k
      → Pays G j m
      → ((a : A) → G a → Pays H k (next a))
      → Pays H n (m >>= next)
  bind-Pays {A} {B} G H n j k m next h pm pn st = first (m st) (pm st)
    where
      second :
          (st' : Interp F)
          → Spent j st st'
          → (r : Ran F B) → Ends (λ b st''. H b × Spent k st' st'') (λ f. Unit {0}) r
          → Ends (λ b st''. H b × Spent n st st'') (λ f. Unit {0}) r
      second st' y (gave b st'') (x, z) = (x, omega (arith, y, z, h))
      second st' y (stuck f st'') u = u

      first :
          (r : Ran F A)
          → Ends (λ a st'. G a × Spent j st st') (λ f. Unit {0}) r
          → Ends (λ b st''. H b × Spent n st st'') (λ f. Unit {0}) (after_run r next)
      first (gave a st') (x, y) = second st' y (next a st') (pn a x st')
      first (stuck f st') u = u

  pub give-Pays : {A : Type 0} (G : A → Type 0) (a : A) → G a → Pays G 0 (give {F = F} a)
  give-Pays G a g st = (g, omega arith)

  pub answer-Pays : {A : Type 0} (a : Answer A) → Pays Any 0 (answer_with {F = F} a)
  answer-Pays (value a) st = (tt, omega arith)
  answer-Pays (failed f) st = tt

  pub tick-Pays :
      {A : Type 0} (G : A → Type 0) (k : ℕ) (clock : Clock) (m : M F A)
      → Pays G k m
      → Pays G (suc k) (tick clock >> m)
  tick-Pays G k clock m p =
      bind-Pays Any G (suc k) 1 k (tick clock) (λ _. m) (omega arith) (λ st. one st) (λ _ _. p)
    where
      one : Pays {F = F} Any 1 (tick clock)
      one st =
          let paid = -ℤ_parts st.budget (pos 1) in
          pair (tick clock st) (
            tick-Ends (λ st'. Spent 1 st st') (λ f. Unit {0}) clock st (λ _. omega (arith, paid))
              (λ c. tt))
        where
          pair :
              (r : Ran F (Unit {0}))
              → Ends (λ u st'. Spent 1 st st') (λ f. Unit {0}) r
              → Ends (λ u st'. Unit {0} × Spent 1 st st') (λ f. Unit {0}) r
          pair (gave u st') y = (tt, y)
          pair (stuck f st') y = y
