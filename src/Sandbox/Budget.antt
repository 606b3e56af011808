-- ===== src/Sandbox/Budget.antt =====
-- internal/sandbox/eval.go: the budget of steps.
use ic.Prelude.{
  ℕ, ◌+◌, sym, ap, subst, ◌≡◌, refl, arith, [], true, String, Option, none, some, len,
  if◌then◌else◌,
}
use ic.Prelude.Int.{pos, ◌≤ℤ◌, ◌-ℤ◌, ◌+ℤ◌, ltb_ℤ, -ℤ_parts, +ℤ_parts}
use ic.Prelude.Dict.{lookup}
use ic.Platform.Float.{Float64}
use ic.Graph.Document.{Json, null, bool, float, number, text, array, object, Fields}
use ic.Sandbox.Limits.{ErrorCode, Limits, normalize}
use ic.Sandbox.Limits.Bounds.{normalize-bounds}
use ic.Sandbox.Values.{Host, truthy}
use ic.Sandbox.Machine.{M, Interp, gave, Setting, give, fail}
use ic.Sandbox.Syntax.{Stmt, assign, if_stmt, return_stmt, expr_stmt, Stmts, no_stmts, stmt}
use ic.Sandbox.Eval.{
  eval, exec_stmt, exec_block, store_local, and_then_stmt, implicit_out, object_result, run,
  run_program, start_interp,
}
use ic.Sandbox.Logic.Defs.{none-some, Logic, EachField, Ends, Ends-gave, tick-Ends, if-all}
use ic.Sandbox.Logic.Runs.{run_program-Ends}
use ic.Sandbox.Unknown.Walk.{admits_stmts, Any, each_item, each_field}
use ic.Sandbox.Work.{
  least, work_expr, work_stmt, work_block, Spent, Pays, le-Pays, bind-Pays, give-Pays, tick-Pays,
}
use ic.Sandbox.Spending.{found_or-Pays, if-Pays, then-Pays, expr-Pays}

module _ {F : Type 0} ⦃fl : Float64 F⦄ ⦃host : Host F⦄ (s : Setting F) where
  abbrev Left : Interp F → Type 0
  Left st = (pos 1 ≤ℤ st.budget) × (st.budget ≤ℤ s.limit.max_steps)

  paid-Left :
      (st : Interp F)
      → Left st
      → ltb_ℤ (pos 0) (st.budget -ℤ pos 1) ≡ true
      → Left (record st { budget = st.budget -ℤ pos 1 })
  paid-Left st i p = ground (arith, -ℤ_parts st.budget (pos 1))

  abbrev budget_logic : Logic F s
  budget_logic = record {
    Inv = Left;
    Good = Any;
    Key = Any;
    Bad = Any;
    faulted = λ c. tt;
    ticks = λ st i. tick-Ends Left Any s.clock st (paid-Left st i) (λ c. tt);
    from_env = λ x v h. tt;
    from_local = λ st x v i h. tt;
    into_local = λ st x v i g. i;
    into_notes = λ st notes i. i;
    null_good = tt;
    bool_good = λ b. tt;
    float_good = λ f. tt;
    text_good = λ t. tt;
    array_good = λ items g. tt;
    items_good = λ items g. each_item items;
    object_good = λ fields g. tt;
    fields_good = λ fields g. each_field fields;
  }

  -- What the statement gives on: one that cannot return gives no value.
  abbrev Goes : Stmt F → Option (Json F) → Type 0
  Goes (assign x e) r = r ≡ none
  Goes (expr_stmt e) r = r ≡ none
  Goes t r = Unit

  store_local-Pays :
      (x : String) (k : ℕ) (m : M F (Json F))
      → Pays Any k m
      → Pays (λ (r : Option (Json F)). r ≡ none) k (store_local x m)
  unfolding store_local
  store_local-Pays x k m p =
      then-Pays s (λ (r : Option (Json F)). r ≡ none) k k 0 m _ (omega arith) p
        (λ v st. (refl, omega arith))

  go_on-Pays :
      (j k : ℕ) (m rest : M F (Option (Json F)))
      → Pays (λ (r : Option (Json F)). r ≡ none) j m
      → Pays Any k rest
      → Pays Any (j + k) (and_then_stmt m rest)
  unfolding and_then_stmt
  go_on-Pays j k m rest pm pr =
      bind-Pays (λ (r : Option (Json F)). r ≡ none) Any (j + k) j k m _ (omega arith) pm go
    where
      go :
          (r : Option (Json F))
          → r ≡ none
          → Pays Any k
              (elim r as (λ _. M F (Option (Json F))) [ none ↦ rest | some v ↦ give (some v) ])
      go none e = pr
      go (some v) e = absurd (none-some (sym e))

  may_stop-Pays :
      (j k : ℕ) (m rest : M F (Option (Json F)))
      → Pays Any j m
      → Pays Any k rest
      → Pays Any (j + 0) (and_then_stmt m rest)
  unfolding and_then_stmt
  may_stop-Pays j k m rest pm pr = bind-Pays Any Any (j + 0) j 0 m _ (omega arith) pm (λ r _. go r)
    where
      go :
          (r : Option (Json F))
          → Pays Any 0
              (elim r as (λ _. M F (Option (Json F))) [ none ↦ rest | some v ↦ give (some v) ])
      go none = le-Pays Any Any 0 k rest (omega arith) (λ _ _. tt) pr
      go (some v) = give-Pays Any (some v) tt

  mutual
    unfolding exec_stmt work_stmt

    stmt-Pays : (t : Stmt F) → Pays (Goes t) (work_stmt t) (exec_stmt s t)
    stmt-Pays (assign x e) = store_local-Pays x (work_expr e) (eval s e) (expr-Pays s e)
    stmt-Pays (if_stmt c t o) =
        let either = least (work_block t) (work_block o) in
        then-Pays s Any (work_expr c + either) (work_expr c) either (eval s c) _ (omega arith)
          (expr-Pays s c)
          (λ v.
            if-Pays s Any (truthy v) (work_block t) (work_block o) (exec_block s t) (exec_block s o)
              (block-Pays t) (block-Pays o))
    stmt-Pays (return_stmt e) =
        then-Pays s Any (work_expr e) (work_expr e) 0 (eval s e) _ (omega arith) (expr-Pays s e)
          (λ v. give-Pays Any (some v) tt)
    stmt-Pays (expr_stmt e) =
        then-Pays s (λ (r : Option (Json F)). r ≡ none) (work_expr e) (work_expr e) 0 (eval s e) _
          (omega arith) (expr-Pays s e)
          (λ v. give-Pays {A = Option (Json F)} (λ r. r ≡ none) none refl)

    block-Pays : (ts : Stmts F) → Pays Any (work_block ts) (exec_block s ts)
    block-Pays no_stmts = give-Pays {A = Option (Json F)} Any none tt
    block-Pays (stmt (assign x e) ts) = tick-Pays Any (work_expr e + work_block ts) s.clock _ (
        go_on-Pays (work_expr e) (work_block ts) (exec_stmt s (assign x e)) (exec_block s ts)
          (stmt-Pays (assign x e)) (block-Pays ts))
    block-Pays (stmt (expr_stmt e) ts) = tick-Pays Any (work_expr e + work_block ts) s.clock _ (
        go_on-Pays (work_expr e) (work_block ts) (exec_stmt s (expr_stmt e)) (exec_block s ts)
          (stmt-Pays (expr_stmt e)) (block-Pays ts))
    block-Pays (stmt (if_stmt c t o) ts) = tick-Pays Any (work_stmt (if_stmt c t o) + 0) s.clock _ (
        may_stop-Pays (work_stmt (if_stmt c t o)) (work_block ts) (exec_stmt s (if_stmt c t o))
          (exec_block s ts) (stmt-Pays (if_stmt c t o)) (block-Pays ts))
    block-Pays (stmt (return_stmt e) ts) = tick-Pays Any (work_expr e + 0) s.clock _ (
        may_stop-Pays (work_expr e) (work_block ts) (exec_stmt s (return_stmt e)) (exec_block s ts)
          (stmt-Pays (return_stmt e)) (block-Pays ts))

  out-Pays : (r : Option (Json F)) → Pays Any 0 (implicit_out s r)
  unfolding implicit_out
  out-Pays (some v) st = (tt, omega arith)
  out-Pays none st = found_or-Pays s (lookup "out" st.local) _ st tt

  result-Pays : (v : Json F) → Pays Any 0 (object_result s v)
  unfolding object_result
  result-Pays (object fields) = go (host.marshal (object fields))
    where
      go :
          (o : Option String)
          → Pays Any 0 (elim o as (λ _. M F (Fields F)) [
            | none ↦ fail ErrorCode.script_output_shape
            | some raw ↦
                if ltb_ℤ s.limit.max_output_bytes (pos (len raw))
                then fail ErrorCode.script_limit
                else give fields
          ])
      go none = λ st. tt
      go (some raw) =
          if-all (Pays Any 0) (ltb_ℤ s.limit.max_output_bytes (pos (len raw))) _ _ (λ st. tt)
            (give-Pays Any fields tt)
  result-Pays null = λ st. tt
  result-Pays (bool v) = λ st. tt
  result-Pays (float v) = λ st. tt
  result-Pays (number v) = λ st. tt
  result-Pays (text v) = λ st. tt
  result-Pays (array v) = λ st. tt

  program-Pays :
      (body : Stmts F)
      → Ends
          (λ fields st. Any fields × Spent (work_block body) (start_interp s) st)
          (λ f. Unit {0})
          (run_program s body)
  unfolding run_program run
  program-Pays body =
      bind-Pays Any Any (work_block body) (work_block body) 0 (run s body) (object_result s)
        (omega arith)
        (bind-Pays Any Any (work_block body) (work_block body) 0 (exec_block s body)
          (implicit_out s) (omega arith) (block-Pays body) (λ r _. out-Pays r))
        (λ v _. result-Pays v) (start_interp s)

  -- Under limits that went through `Normalize`, a script that returns has taken off the budget at least
  -- one step for every expression and statement that it surely evaluates: all of them but the
  -- arguments of calls, the right operands of &&, || and ??, the ways of a branch beyond the cheaper
  -- one, and what stands after a statement that may return. It has at least one step left of the
  -- limit, which is at most two hundred thousand.
  pub run_program-budget :
      (l : Limits) (body : Stmts F)
      → s.limit ≡ normalize l
      → (fields : Fields F) (st : Interp F) → run_program s body ≡ gave fields st
      → (pos 1 ≤ℤ st.budget)
        × (st.budget +ℤ pos (work_block body) ≤ℤ s.limit.max_steps)
        × (s.limit.max_steps ≤ℤ pos 200000)
  unfolding start_interp
  run_program-budget l body e fields st h =
      let (steps_low, steps_high) = (normalize-bounds l).1 in
      let at_limit = ap (λ k. k.max_steps) e in
      let begun : (pos 1 ≤ℤ s.limit.max_steps) × (s.limit.max_steps ≤ℤ pos 200000) =
        subst (λ k. (pos 1 ≤ℤ k) × (k ≤ℤ pos 200000)) (sym at_limit) (steps_low, steps_high) in
      let kept =
        Ends-gave (λ fs st'. Left st' × EachField Any Any fs) Any
          (run_program-Ends budget_logic body (admits_stmts _ body [] (λ x m missing. tt))
            (begun.0, omega arith))
          h in
      let spent =
        Ends-gave (λ fs st'. Any fs × Spent (work_block body) (start_interp s) st') (λ f. Unit {0})
          (program-Pays body) h in
      (kept.0.0, omega (arith, spent.1, +ℤ_parts st.budget (pos (work_block body))), begun.1)
