-- ===== src/Sandbox/Logic/Runs.antt =====
-- internal/sandbox/eval.go under the logic of executions: statements and whole scripts.
use ic.Prelude.{String, Option, none, some, len, if◌then◌else◌}
use ic.Prelude.Int.{pos, ltb_ℤ}
use ic.Prelude.Dict.{lookup}
use ic.Platform.Float.{Float64}
use ic.Graph.Document.{Json, null, bool, float, number, text, array, object, Fields}
use ic.Sandbox.Limits.{ErrorCode}
use ic.Sandbox.Values.{Host, truthy}
use ic.Sandbox.Machine.{M, Setting, give, fail}
use ic.Sandbox.Syntax.{Stmt, assign, if_stmt, return_stmt, expr_stmt, Stmts, no_stmts, stmt}
use ic.Sandbox.Eval.{
  eval, exec_stmt, exec_block, store_local, and_then_stmt, implicit_out, run, run_program,
  object_result, start_interp,
}
use ic.Sandbox.Logic.Defs.{Logic, Keeps, Ends, EachField, bind-Keeps, tick-Keeps}
use ic.Sandbox.Logic.Args.{give-Keeps, fail-Keeps}
use ic.Sandbox.Logic.Admits.{AdmitsStmt, AdmitsStmts}
use ic.Sandbox.Logic.Scripts.{eval-Keeps, then-Keeps, if-Keeps, found_or-Keeps, Calls, Admits}

abbrev OrNone : {A : Type 0} → (A → Type 0) → Option A → Type 0
OrNone G none = Unit
OrNone G (some a) = G a

module _ {F : Type 0} ⦃fl : Float64 F⦄ ⦃host : Host F⦄ {s : Setting F} (L : Logic F s) where
  store_local-Keeps :
      (x : String) (m : M F (Json F)) → Keeps L L.Good m → Keeps L (OrNone L.Good) (store_local x m)
  unfolding store_local
  store_local-Keeps x m km =
      then-Keeps L (OrNone L.Good) m _ km (λ v g st i. (L.into_local st x v i g, tt))

  next-Keeps :
      (m rest : M F (Option (Json F)))
      → Keeps L (OrNone L.Good) m
      → Keeps L (OrNone L.Good) rest
      → Keeps L (OrNone L.Good) (and_then_stmt m rest)
  unfolding and_then_stmt
  next-Keeps m rest km kr = bind-Keeps L (OrNone L.Good) (OrNone L.Good) m _ km go
    where
      go :
          (r : Option (Json F))
          → OrNone L.Good r
          → Keeps L
              (OrNone L.Good)
              (elim r as (λ _. M F (Option (Json F))) [ none ↦ rest | some v ↦ give (some v) ])
      go none g = kr
      go (some v) g = give-Keeps L (OrNone L.Good) (some v) g

  mutual
    unfolding exec_stmt AdmitsStmt

    stmt-Keeps :
        (t : Stmt F) → AdmitsStmt L.Good L.Key (Calls L) t → Keeps L (OrNone L.Good) (exec_stmt s t)
    stmt-Keeps (assign x e) a = store_local-Keeps x (eval s e) (eval-Keeps L e a)
    stmt-Keeps (if_stmt c t o) (a, b, d) =
        then-Keeps L (OrNone L.Good) (eval s c) _ (eval-Keeps L c a) (λ v g.
          if-Keeps L (OrNone L.Good) (truthy v) (exec_block s t) (exec_block s o) (block-Keeps t b)
            (block-Keeps o d))
    stmt-Keeps (return_stmt e) a =
        then-Keeps L (OrNone L.Good) (eval s e) _ (eval-Keeps L e a)
          (λ v g. give-Keeps L (OrNone L.Good) (some v) g)
    stmt-Keeps (expr_stmt e) a =
        then-Keeps L (OrNone L.Good) (eval s e) _ (eval-Keeps L e a)
          (λ v g. give-Keeps L (OrNone L.Good) none tt)

    block-Keeps :
        (ts : Stmts F)
        → AdmitsStmts L.Good L.Key (Calls L) ts
        → Keeps L (OrNone L.Good) (exec_block s ts)
    block-Keeps no_stmts a = give-Keeps L (OrNone L.Good) none tt
    block-Keeps (stmt t ts) (a, b) =
        tick-Keeps L (OrNone L.Good) _
          (next-Keeps (exec_stmt s t) (exec_block s ts) (stmt-Keeps t a) (block-Keeps ts b))

  out-Keeps : (r : Option (Json F)) → OrNone L.Good r → Keeps L L.Good (implicit_out s r)
  unfolding implicit_out
  out-Keeps (some v) g st i = (i, g)
  out-Keeps none g st i =
      found_or-Keeps L (lookup "out" st.local) _ st i (λ v. L.from_local st "out" v i) (L.faulted _)

  result-Keeps : (v : Json F) → L.Good v → Keeps L (EachField L.Key L.Good) (object_result s v)
  unfolding object_result
  result-Keeps (object fields) g = go (host.marshal (object fields))
    where
      go :
          (o : Option String)
          → Keeps L (EachField L.Key L.Good) (elim o as (λ _. M F (Fields F)) [
            | none ↦ fail ErrorCode.script_output_shape
            | some raw ↦
                if ltb_ℤ s.limit.max_output_bytes (pos (len raw))
                then fail ErrorCode.script_limit
                else give fields
          ])
      go none = fail-Keeps L (EachField L.Key L.Good) _
      go (some raw) =
          if-Keeps L (EachField L.Key L.Good) (ltb_ℤ s.limit.max_output_bytes (pos (len raw)))
            (fail ErrorCode.script_limit) (give fields) (fail-Keeps L (EachField L.Key L.Good) _)
            (give-Keeps L (EachField L.Key L.Good) fields (L.fields_good fields g))
  result-Keeps null g = fail-Keeps L (EachField L.Key L.Good) _
  result-Keeps (bool v) g = fail-Keeps L (EachField L.Key L.Good) _
  result-Keeps (float v) g = fail-Keeps L (EachField L.Key L.Good) _
  result-Keeps (number v) g = fail-Keeps L (EachField L.Key L.Good) _
  result-Keeps (text v) g = fail-Keeps L (EachField L.Key L.Good) _
  result-Keeps (array v) g = fail-Keeps L (EachField L.Key L.Good) _

  -- The rule for a whole script.
  pub run_program-Ends :
      (body : Stmts F)
      → Admits L body
      → L.Inv (start_interp s)
      → Ends (λ fields st. L.Inv st × EachField L.Key L.Good fields) L.Bad (run_program s body)
  unfolding run_program run
  run_program-Ends body a i =
      bind-Keeps L L.Good (EachField L.Key L.Good) (run s body) (object_result s)
        (bind-Keeps L (OrNone L.Good) L.Good (exec_block s body) (implicit_out s)
          (block-Keeps body a) out-Keeps)
        result-Keeps (start_interp s) i
