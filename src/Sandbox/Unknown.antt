-- ===== src/Sandbox/Unknown.antt =====
-- internal/sandbox: the functions that a script can be refused for are those that `Analyze` lists.
pub mod Walk
use ic.Prelude.{
  ◌≡◌, refl, sym, subst, String, true, not, List, [], Option, none, some, inl, inr, Option-cases,
  ◌∙◌, sort_strings, arith, In, In-keep, In-sort_strings, keep,
}
use ic.Prelude.Dict.{lookup, has, keys, lookup_of_In-keys, In-keys_of_lookup}
use ic.Platform.Float.{Float64}
use ic.Graph.Document.{Items, nil, cons, Fields, end, field}
use ic.Sandbox.Limits.{Fault, fault, unknown_call, default_limits, Limits}
use ic.Sandbox.Values.{Host}
use ic.Sandbox.HostFuncs.{host_func_table}
use ic.Sandbox.Machine.{Interp, stuck, Setting}
use ic.Sandbox.Syntax.{
  Expr, lit, ident, member, index, unary, binary, ternary, call, array_of, object_of, Exprs,
  no_exprs, expr, Props, no_props, prop, Stmt, assign, if_stmt, return_stmt, expr_stmt, Stmts,
  no_stmts, stmt, add_name, free_idents,
}
use ic.Sandbox.Analyze.{
  calls_expr, calls_exprs, calls_props, calls_stmt, calls_stmts, analyze_program, Analysis,
  forbidden_stmts,
}
use ic.Sandbox.Eval.{run_program}
use ic.Sandbox.Names.{add_name-keeps, add_name-has}
use ic.Sandbox.Logic.Defs.{none-some, Logic, EachItem, EachField, Ends-stuck, tick-Ends}
use ic.Sandbox.Logic.Admits.{AdmitsExpr, AdmitsExprs, AdmitsProps, AdmitsStmt, AdmitsStmts}
use ic.Sandbox.Logic.Runs.{run_program-Ends}
use ic.Sandbox.Unknown.Walk.{Any, Holds, admits_stmts, each_item, each_field}

-- A function that one setting's table lacks is lacking in every table.
lookup_of_keys :
    {A : Type 0} (k : String) (m n : List (String × A))
    → keys m ≡ keys n
    → lookup k m ≡ none
    → lookup k n ≡ none
lookup_of_keys k m n e h = elim (Option-cases (lookup k n)) [
  | inl missing ↦ missing
  | inr (v, found) ↦
      let (w, there) =
        lookup_of_In-keys k m (subst (In k) (sym e) (In-keys_of_lookup k n v found)) in
      absurd (none-some (sym h ∙ there))
]

module _ {F : Type 0} ⦃fl : Float64 F⦄ ⦃host : Host F⦄ where
  abbrev unknown_of : Stmts F → List String
  unknown_of body =
      keep (λ name. not (has name (host_func_table {F = F} default_limits)))
        (sort_strings (calls_stmts body []))

  missing_has :
      (name : String) (l : Limits)
      → lookup name (host_func_table {F = F} l) ≡ none
      → not (has name (host_func_table {F = F} default_limits)) ≡ true
  unfolding has host_func_table
  missing_has name l h =
      let missing : lookup name (host_func_table {F = F} default_limits) ≡ none =
        lookup_of_keys name (host_func_table l) (host_func_table default_limits) refl h in
      ground arith

  analyze-unknown :
      (body : Stmts F) (a : Analysis)
      → analyze_program body ≡ some a
      → a.unknown_calls ≡ unknown_of body
  unfolding analyze_program
  analyze-unknown body a h = go (forbidden_stmts body []) h
    where
      go :
          (o : Option (List String))
          → (elim o as (λ _. Option Analysis) [
            | none ↦ none
            | some out ↦ some (record {
              reads = free_idents body;
              calls = sort_strings (calls_stmts body []);
              unknown_calls = unknown_of body;
              forbidden = out;
            })
          ])
            ≡ some a
          → a.unknown_calls ≡ unknown_of body
      go none e = absurd (none-some e)
      go (some out) e = cc

  module _ (s : Setting F) where
    abbrev BadCall : List String → Fault → Type 0
    BadCall names (fault c) = Unit
    BadCall names (unknown_call name) = In name names

    abbrev call_logic : List String → Logic F s
    call_logic names = record {
      Inv = Any;
      Good = Any;
      Key = Any;
      Bad = BadCall names;
      faulted = λ c. tt;
      ticks = λ st i. tick-Ends Any (BadCall names) s.clock st (λ p. tt) (λ c. tt);
      from_env = λ x v h. tt;
      from_local = λ st x v i h. tt;
      into_local = λ st x v i g. tt;
      into_notes = λ st notes i. tt;
      null_good = tt;
      bool_good = λ b. tt;
      float_good = λ f. tt;
      text_good = λ t. tt;
      array_good = λ items g. tt;
      items_good = λ items g. each_item items;
      object_good = λ fields g. tt;
      fields_good = λ fields g. each_field fields;
    }

    -- A run that is refused for a function that is not there names one of the unknown calls that
    -- the analysis of the script lists. So a script with none is never refused for a call.
    pub run_program-unknown_call :
        (body : Stmts F) (a : Analysis)
        → analyze_program body ≡ some a
        → (name : String) (st : Interp F) → run_program s body ≡ stuck (unknown_call name) st
        → In name a.unknown_calls
    run_program-unknown_call body a h name st e = subst (In name) (sym (analyze-unknown body a h)) (
        Ends-stuck (λ fs st'. Unit {0} × EachField Any Any fs) (BadCall (unknown_of body))
          (run_program-Ends (call_logic (unknown_of body)) body
            (admits_stmts _ body [] (λ x m missing.
              (In-keep _ x (sort_strings (calls_stmts body []))).1
                ((In-sort_strings x (calls_stmts body [])).1 m, missing_has x s.limit missing)))
            tt)
          e)
