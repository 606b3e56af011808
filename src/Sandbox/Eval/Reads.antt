-- ===== src/Sandbox/Eval/Reads.antt =====
-- internal/sandbox/ast.go and eval.go: `freeIdents` names everything that a script can read of its
-- environment.
use ic.Prelude.{ℕ, zero, suc, ◌≡◌, refl, ap, ap₂, String, List, [], none, some, if◌then◌else◌, In}
use mathlib.Core.Path.{fun_ext}
use ic.Prelude.Dict.{lookup}
use ic.Platform.Float.{Float64}
use ic.Graph.Document.{Json, Spec, Fields, Items}
use ic.Sandbox.Limits.{Limits, ErrorCode}
use ic.Sandbox.Values.{Host, set_field, truthy}
use ic.Sandbox.Machine.{M, Clock, Setting, ◌>>=◌, ◌>>◌, after_run, tick, give, fail}
use ic.Sandbox.HostFuncs.{eval_call}
use ic.Sandbox.Syntax.{
  Expr, lit, ident, member, index, unary, binary, ternary, call, array_of, object_of, Exprs,
  no_exprs, expr, Props, no_props, prop, expr_count, Stmt, assign, if_stmt, return_stmt, expr_stmt,
  Stmts, no_stmts, stmt, free_expr, free_exprs, free_props, free_stmt, free_stmts, free_idents,
}
use ic.Sandbox.Names.{add_name-keeps, add_name-has}
use ic.Sandbox.Eval.{
  eval, eval_nth, eval_items, eval_props, eval_ident, eval_member, eval_index, eval_unary,
  eval_binary, eval_ternary, exec_stmt, exec_block, store_local, and_then_stmt, run, run_program,
  found_or, implicit_out, object_result, start_interp,
}

-- The walks only add names.
module _ {F : Type 0} (x : String) where
  mutual
    unfolding free_expr

    keeps_expr : (e : Expr F) (out : List String) → In x out → In x (free_expr e out)
    keeps_expr (lit v) out m = m
    keeps_expr (ident n) out m = add_name-keeps n x out m
    keeps_expr (member obj n) out m = keeps_expr obj out m
    keeps_expr (index obj i) out m = keeps_expr i (free_expr obj out) (keeps_expr obj out m)
    keeps_expr (unary op e) out m = keeps_expr e out m
    keeps_expr (binary op l r) out m = keeps_expr r (free_expr l out) (keeps_expr l out m)
    keeps_expr (ternary c t o) out m =
        keeps_expr o (free_expr t (free_expr c out))
          (keeps_expr t (free_expr c out) (keeps_expr c out m))
    keeps_expr (call fn args) out m = keeps_exprs args out m
    keeps_expr (array_of items) out m = keeps_exprs items out m
    keeps_expr (object_of props) out m = keeps_props props out m

    keeps_exprs : (es : Exprs F) (out : List String) → In x out → In x (free_exprs es out)
    keeps_exprs no_exprs out m = m
    keeps_exprs (expr e es) out m = keeps_exprs es (free_expr e out) (keeps_expr e out m)

    keeps_props : (ps : Props F) (out : List String) → In x out → In x (free_props ps out)
    keeps_props no_props out m = m
    keeps_props (prop k e ps) out m = keeps_props ps (free_expr e out) (keeps_expr e out m)

  mutual
    unfolding free_stmt

    keeps_stmt : (t : Stmt F) (out : List String) → In x out → In x (free_stmt t out)
    keeps_stmt (assign n e) out m = keeps_expr e out m
    keeps_stmt (if_stmt c t o) out m =
        keeps_stmts o (free_stmts t (free_expr c out))
          (keeps_stmts t (free_expr c out) (keeps_expr c out m))
    keeps_stmt (return_stmt e) out m = keeps_expr e out m
    keeps_stmt (expr_stmt e) out m = keeps_expr e out m

    keeps_stmts : (ts : Stmts F) (out : List String) → In x out → In x (free_stmts ts out)
    keeps_stmts no_stmts out m = m
    keeps_stmts (stmt t ts) out m = keeps_stmts ts (free_stmt t out) (keeps_stmt t out m)

-- Two environments give the same for each of the names.
abbrev pub Agree : {F : Type 0} → Spec F → Spec F → List String → Type 0
Agree env env' names = (x : String) → In x names → lookup x env ≡ lookup x env'

module _ {F : Type 0} ⦃fl : Float64 F⦄ ⦃host : Host F⦄ (limit : Limits) (clock : Clock)
    (env env' : Spec F) where
  abbrev first : Setting F
  first = record { env = env; limit = limit; clock = clock }

  abbrev second : Setting F
  second = record { env = env'; limit = limit; clock = clock }

  same_ident :
      (n : String) → lookup n env ≡ lookup n env' → eval_ident {F = F} env n ≡ eval_ident env' n
  unfolding eval_ident
  same_ident n h =
      λ i st. found_or (lookup n st.local) (found_or (h i) (fail ErrorCode.script_runtime)) st

  mutual
    unfolding eval free_expr

    same_eval :
        (e : Expr F) (out : List String)
        → Agree env env' (free_expr e out)
        → eval first e ≡ eval second e
    same_eval (lit v) out h = refl
    same_eval (ident n) out h = ap (λ m. tick clock >> m) (same_ident n (h n (add_name-has n out)))
    same_eval (member obj n) out h = ap (λ m. tick clock >> eval_member m n) (same_eval obj out h)
    same_eval (index obj i) out h =
        ap₂ (λ m k. tick clock >> eval_index m k)
          (same_eval obj out (λ x m. h x (keeps_expr x i (free_expr obj out) m)))
          (same_eval i (free_expr obj out) h)
    same_eval (unary op e) out h = ap (λ m. tick clock >> eval_unary op m) (same_eval e out h)
    same_eval (binary op l r) out h =
        ap₂ (λ m k. tick clock >> eval_binary op m k)
          (same_eval l out (λ x m. h x (keeps_expr x r (free_expr l out) m)))
          (same_eval r (free_expr l out) h)
    same_eval (ternary c t o) out h = λ k.
        tick clock
        >> eval_ternary
            (same_eval c out
              (λ x m. h x (
                keeps_expr x o (free_expr t (free_expr c out))
                  (keeps_expr x t (free_expr c out) m)))
              k)
            (same_eval t (free_expr c out)
              (λ x m. h x (keeps_expr x o (free_expr t (free_expr c out)) m)) k)
            (same_eval o (free_expr t (free_expr c out)) h k)
    same_eval (call fn args) out h =
        ap
          (λ a.
            tick clock >> eval_call limit fn (record { amount = expr_count args; eval_arg = a }))
          (fun_ext (same_nth args out h))
    same_eval (array_of items) out h =
        ap (λ m. tick clock >> (m >>= λ vs. give (Json.array vs))) (same_items items out h)
    same_eval (object_of props) out h =
        ap (λ m. tick clock >> (m >>= λ fs. give (Json.object fs)))
          (same_props props out Fields.end h)

    same_nth :
        (es : Exprs F) (out : List String)
        → Agree env env' (free_exprs es out)
        → (i : ℕ) → eval_nth first es i ≡ eval_nth second es i
    same_nth no_exprs out h i = refl
    same_nth (expr e es) out h zero =
        same_eval e out (λ x m. h x (keeps_exprs x es (free_expr e out) m))
    same_nth (expr e es) out h (suc i) = same_nth es (free_expr e out) h i

    same_items :
        (es : Exprs F) (out : List String)
        → Agree env env' (free_exprs es out)
        → eval_items first es ≡ eval_items second es
    same_items no_exprs out h = refl
    same_items (expr e es) out h =
        ap₂ (λ m k. m >>= λ v. k >>= λ vs. give (Items.cons v vs))
          (same_eval e out (λ x m. h x (keeps_exprs x es (free_expr e out) m)))
          (same_items es (free_expr e out) h)

    same_props :
        (ps : Props F) (out : List String) (fs : Fields F)
        → Agree env env' (free_props ps out)
        → eval_props first ps fs ≡ eval_props second ps fs
    same_props no_props out fs h = refl
    same_props (prop k e ps) out fs h =
        ap₂ (λ m (k' : Json F → M F (Fields F)). m >>= k')
          (same_eval e out (λ x m. h x (keeps_props x ps (free_expr e out) m)))
          (fun_ext λ v. same_props ps (free_expr e out) (set_field k v fs) h)

  mutual
    unfolding exec_stmt free_stmt

    same_stmt :
        (t : Stmt F) (out : List String)
        → Agree env env' (free_stmt t out)
        → exec_stmt first t ≡ exec_stmt second t
    same_stmt (assign n e) out h = ap (store_local n) (same_eval e out h)
    same_stmt (if_stmt c t o) out h = λ k.
        same_eval c out
          (λ x m. h x (
            keeps_stmts x o (free_stmts t (free_expr c out)) (keeps_stmts x t (free_expr c out) m)))
          k
        >>= λ v.
            if truthy v
            then same_stmts t (free_expr c out)
                (λ x m. h x (keeps_stmts x o (free_stmts t (free_expr c out)) m)) k
            else same_stmts o (free_stmts t (free_expr c out)) h k
    same_stmt (return_stmt e) out h = ap (λ m. m >>= λ v. give (some v)) (same_eval e out h)
    same_stmt (expr_stmt e) out h = ap (λ m. m >>= λ v. give none) (same_eval e out h)

    same_stmts :
        (ts : Stmts F) (out : List String)
        → Agree env env' (free_stmts ts out)
        → exec_block first ts ≡ exec_block second ts
    same_stmts no_stmts out h = refl
    same_stmts (stmt t ts) out h =
        ap₂ (λ m k. tick clock >> and_then_stmt m k)
          (same_stmt t out (λ x m. h x (keeps_stmts x ts (free_stmt t out) m)))
          (same_stmts ts (free_stmt t out) h)

  -- Two environments that give the same for each of the names that `freeIdents` lists cannot be told
  -- apart by the script: its result, its faults, its notes and its steps are the same. The names are
  -- all that the script can read.
  pub run_program-reads :
      (body : Stmts F)
      → Agree env env' (free_idents body)
      → run_program first body ≡ run_program second body
  unfolding run_program run free_idents object_result start_interp implicit_out
  run_program-reads body h =
      ap
        (λ m.
          after_run (after_run (m (start_interp first)) (implicit_out first)) (object_result first))
        (same_stmts body [] h)
