-- ===== src/Sandbox/Clean.antt =====
-- internal/sandbox: no key of the prototype chain reaches the result of a script.
use ic.Prelude.{◌≡◌, sym, ◌∙◌, subst, String, Bool, false, some, same, Bool-cases, inl, inr}
use ic.Prelude.Dict.{lookup, insert, lookup-insert}
use ic.Platform.Float.{Float64}
use ic.Graph.Document.{
  Spec, Json, null, bool, float, number, text, array, object, Items, nil, cons, Fields, end, field,
}
use ic.Sandbox.Values.{Host, is_proto_key}
use ic.Sandbox.Machine.{Interp, gave, Setting}
use ic.Sandbox.Syntax.{
  Expr, lit, ident, member, index, unary, binary, ternary, call, array_of, object_of, Exprs,
  no_exprs, expr, Props, no_props, prop, Stmt, assign, if_stmt, return_stmt, expr_stmt, Stmts,
  no_stmts, stmt,
}
use ic.Sandbox.Eval.{run_program, start_interp}
use ic.Sandbox.Logic.Defs.{none-some, some-eq, Logic, EachItem, EachField, Ends-gave, tick-Ends}
use ic.Sandbox.Logic.Admits.{AdmitsExpr, AdmitsExprs, AdmitsProps, AdmitsStmt, AdmitsStmts}
use ic.Sandbox.Logic.Runs.{run_program-Ends}

abbrev pub IsOrdinary : String → Type 0
IsOrdinary k = is_proto_key k ≡ false

-- No object of the value, at any depth, has a key of the prototype chain.
module _ {F : Type 0} where
  unfoldable mutual
    pub IsClean : Json F → Type 0
    IsClean null = Unit
    IsClean (bool b) = Unit
    IsClean (float f) = Unit
    IsClean (number t) = Unit
    IsClean (text t) = Unit
    IsClean (array items) = ItemsAreClean items
    IsClean (object fields) = FieldsAreClean fields

    pub ItemsAreClean : Items F → Type 0
    ItemsAreClean nil = Unit
    ItemsAreClean (cons v rest) = IsClean v × ItemsAreClean rest

    pub FieldsAreClean : Fields F → Type 0
    FieldsAreClean end = Unit
    FieldsAreClean (field k v rest) = IsOrdinary k × IsClean v × FieldsAreClean rest

  to_items : (items : Items F) → EachItem IsClean items → ItemsAreClean items
  unfolding IsClean
  to_items nil h = h
  to_items (cons v rest) (a, b) = (a, to_items rest b)

  from_items : (items : Items F) → ItemsAreClean items → EachItem IsClean items
  unfolding IsClean
  from_items nil h = h
  from_items (cons v rest) (a, b) = (a, from_items rest b)

  to_fields : (fields : Fields F) → EachField IsOrdinary IsClean fields → FieldsAreClean fields
  unfolding IsClean
  to_fields end h = h
  to_fields (field k v rest) (o, a, b) = (o, a, to_fields rest b)

  from_fields : (fields : Fields F) → FieldsAreClean fields → EachField IsOrdinary IsClean fields
  unfolding IsClean
  from_fields end h = h
  from_fields (field k v rest) (o, a, b) = (o, a, from_fields rest b)

abbrev pub SpecIsClean : {F : Type 0} → Spec F → Type 0
SpecIsClean {F} spec = (x : String) (v : Json F) → lookup x spec ≡ some v → IsClean v

-- The literals and the keys of the objects that the script writes are clean.
abbrev pub WritesClean : {F : Type 0} → Stmts F → Type 0
WritesClean = AdmitsStmts IsClean IsOrdinary (λ n. Unit {0})

module _ {F : Type 0} (Lit : Json F → Type 0) (Key Call Call' : String → Type 0)
    (all : (n : String) → Call n → Call' n) where
  mutual
    unfolding AdmitsExpr

    mono_expr : (e : Expr F) → AdmitsExpr Lit Key Call e → AdmitsExpr Lit Key Call' e
    mono_expr (lit v) a = a
    mono_expr (ident n) a = a
    mono_expr (member obj n) a = mono_expr obj a
    mono_expr (index obj i) (a, b) = (mono_expr obj a, mono_expr i b)
    mono_expr (unary op e) a = mono_expr e a
    mono_expr (binary op l r) (a, b) = (mono_expr l a, mono_expr r b)
    mono_expr (ternary c t o) (a, b, d) = (mono_expr c a, mono_expr t b, mono_expr o d)
    mono_expr (call fn args) (known, a) = (all fn known, mono_exprs args a)
    mono_expr (array_of items) a = mono_exprs items a
    mono_expr (object_of props) a = mono_props props a

    mono_exprs : (es : Exprs F) → AdmitsExprs Lit Key Call es → AdmitsExprs Lit Key Call' es
    mono_exprs no_exprs a = a
    mono_exprs (expr e es) (a, b) = (mono_expr e a, mono_exprs es b)

    mono_props : (ps : Props F) → AdmitsProps Lit Key Call ps → AdmitsProps Lit Key Call' ps
    mono_props no_props a = a
    mono_props (prop k e ps) (key, a, b) = (key, mono_expr e a, mono_props ps b)

  mutual
    unfolding AdmitsStmt

    mono_stmt : (t : Stmt F) → AdmitsStmt Lit Key Call t → AdmitsStmt Lit Key Call' t
    mono_stmt (assign x e) a = mono_expr e a
    mono_stmt (if_stmt c t o) (a, b, d) = (mono_expr c a, mono_stmts t b, mono_stmts o d)
    mono_stmt (return_stmt e) a = mono_expr e a
    mono_stmt (expr_stmt e) a = mono_expr e a

    mono_stmts : (ts : Stmts F) → AdmitsStmts Lit Key Call ts → AdmitsStmts Lit Key Call' ts
    mono_stmts no_stmts a = a
    mono_stmts (stmt t ts) (a, b) = (mono_stmt t a, mono_stmts ts b)

SpecIsClean-insert :
    {F : Type 0} (k : String) (v : Json F) (spec : Spec F)
    → SpecIsClean spec
    → IsClean v
    → SpecIsClean (insert k v spec)
SpecIsClean-insert k v spec clean g x w h = elim (Bool-cases (same k x)) [
  | inl e ↦ subst IsClean (some-eq (rw e at (sym (lookup-insert k x v spec) ∙ h))) g
  | inr e ↦ clean x w (rw e at (sym (lookup-insert k x v spec) ∙ h))
]

module _ {F : Type 0} where
  atom-IsClean :
      IsClean {F = F} null
      × ((b : Bool) → IsClean {F = F} (bool b))
      × ((f : F) → IsClean (float f))
      × ((t : String) → IsClean {F = F} (text t))
  unfolding IsClean
  atom-IsClean = (tt, (λ b. tt), (λ f. tt), (λ t. tt))

  array-IsClean :
      ((items : Items F) → EachItem IsClean items → IsClean (array items))
      × ((items : Items F) → IsClean (array items) → EachItem IsClean items)
  unfolding IsClean
  array-IsClean = (to_items, from_items)

  object-IsClean :
      ((fields : Fields F) → EachField IsOrdinary IsClean fields → IsClean (object fields))
      × ((fields : Fields F) → IsClean (object fields) → EachField IsOrdinary IsClean fields)
  unfolding IsClean
  object-IsClean = (to_fields, from_fields)

module _ {F : Type 0} ⦃fl : Float64 F⦄ ⦃host : Host F⦄ (s : Setting F)
    (env : SpecIsClean s.env) where
  abbrev clean_logic : Logic F s
  clean_logic = record {
    Inv = λ st. SpecIsClean st.local;
    Good = IsClean;
    Key = IsOrdinary;
    Bad = λ f. Unit {0};
    faulted = λ c. tt;
    ticks =
        λ st i. tick-Ends (λ t. SpecIsClean t.local) (λ f. Unit {0}) s.clock st (λ p. i) (λ c. tt);
    from_env = env;
    from_local = λ st x v i h. i x v h;
    into_local = λ st x v i g. SpecIsClean-insert x v st.local i g;
    into_notes = λ st notes i. i;
    null_good = atom-IsClean.0;
    bool_good = atom-IsClean.1;
    float_good = atom-IsClean.2;
    text_good = atom-IsClean.3;
    array_good = array-IsClean.0;
    items_good = array-IsClean.1;
    object_good = object-IsClean.0;
    fields_good = object-IsClean.1;
  }

  -- The same for a run of a tree that writes no such key.
  pub run_program-clean :
      (body : Stmts F)
      → WritesClean body
      → (fields : Fields F) (st : Interp F) → run_program s body ≡ gave fields st
      → FieldsAreClean fields
  unfolding lookup start_interp
  run_program-clean body writes fields st h =
      to_fields fields
        (Ends-gave (λ fs st'. SpecIsClean st'.local × EachField IsOrdinary IsClean fs)
          (λ f. Unit {0})
          (run_program-Ends clean_logic body
            (mono_stmts IsClean IsOrdinary (λ n. Unit) _ (λ n u e. tt) body writes)
            (λ x v found. absurd (none-some found)))
          h).1
