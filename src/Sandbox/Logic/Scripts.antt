-- ===== src/Sandbox/Logic/Scripts.antt =====
-- internal/sandbox/eval.go under the logic of executions: an expression whose literals, keys and calls
-- are admitted keeps the invariant.
use ic.Prelude.{◌≡◌, refl, ℕ, zero, suc, String, Bool, Option, none, some, if◌then◌else◌}
use ic.Prelude.Dict.{lookup}
use ic.Platform.Float.{Float64}
use ic.Graph.Document.{Json, null, array, object, nil, cons, Fields, end}
use ic.Sandbox.Limits.{unknown_call}
use ic.Sandbox.Values.{Host, truthy, is_null, member_value, set_field}
use ic.Sandbox.Operators.{index_value, unary_value, binary_value}
use ic.Sandbox.Machine.{M, Interp, Setting, give, ◌>>=◌, answer_with}
use ic.Sandbox.HostFuncs.{host_func_table}
use ic.Sandbox.Syntax.{
  BinaryOp, Expr, lit, ident, member, index, unary, binary, ternary, call, array_of, object_of,
  Exprs, no_exprs, expr, Props, no_props, prop, Stmts,
}
use ic.Sandbox.Eval.{
  eval, eval_nth, eval_items, eval_props, eval_ident, eval_member, eval_index, eval_unary,
  eval_binary, eval_ternary, found_or,
}
use ic.Sandbox.Logic.Defs.{
  Logic, Keeps, Ends, EachItem, EachField, bind-Keeps, answer-Keeps, tick-Keeps, if-all,
}
use ic.Sandbox.Logic.Values.{
  member_value-Good, index_value-Good, unary_value-Good, binary_value-Good, set_field-Good,
}
use ic.Sandbox.Logic.Args.{give-Keeps}
use ic.Sandbox.Logic.Calls.{eval_call-Keeps}
use ic.Sandbox.Logic.Admits.{AdmitsExpr, AdmitsExprs, AdmitsProps, AdmitsStmts}

module _ {F : Type 0} ⦃fl : Float64 F⦄ ⦃host : Host F⦄ {s : Setting F} (L : Logic F s) where
  abbrev pub Calls : String → Type 0
  Calls name = lookup name (host_func_table {F = F} s.limit) ≡ none → L.Bad (unknown_call name)

  abbrev pub Admits : Stmts F → Type 0
  Admits = AdmitsStmts L.Good L.Key Calls

  pub found_or-Keeps :
      (o : Option (Json F)) (m : M F (Json F)) (st : Interp F)
      → L.Inv st
      → ((v : Json F) → o ≡ some v → L.Good v)
      → Ends (λ v st'. L.Inv st' × L.Good v) L.Bad (m st)
      → Ends (λ v st'. L.Inv st' × L.Good v) L.Bad (found_or o m st)
  found_or-Keeps none m st i g e = e
  found_or-Keeps (some v) m st i g e = (i, g v refl)

  pub ident-Keeps : (n : String) → Keeps L L.Good (eval_ident s.env n)
  unfolding eval_ident
  ident-Keeps n st i =
      found_or-Keeps (lookup n st.local) _ st i (λ v. L.from_local st n v i)
        (found_or-Keeps (lookup n s.env) _ st i (L.from_env n) (L.faulted _))

  -- Where a value is known to be admitted, so is what goes on from it.
  abbrev pub then-Keeps :
      {B : Type 0} (H : B → Type 0) (m : M F (Json F)) (next : Json F → M F B)
      → Keeps L L.Good m
      → ((v : Json F) → L.Good v → Keeps L H (next v))
      → Keeps L H (m >>= next)
  then-Keeps H m next = bind-Keeps L L.Good H m next

  pub if-Keeps :
      {A : Type 0} (G : A → Type 0) (b : Bool) (m n : M F A)
      → Keeps L G m
      → Keeps L G n
      → Keeps L G (if b then m else n)
  if-Keeps G b m n = if-all (Keeps L G) b m n

  pub plain-Keeps :
      (op : BinaryOp) (l r : M F (Json F))
      → Keeps L L.Good l
      → Keeps L L.Good r
      → Keeps L L.Good (l >>= λ v. r >>= λ w. answer_with (binary_value op v w))
  plain-Keeps op l r kl kr = then-Keeps L.Good l _ kl (λ v g.
      then-Keeps L.Good r _ kr
        (λ w g'. answer-Keeps L L.Good (binary_value op v w) (binary_value-Good L op v w)))

  pub binary-Keeps :
      (op : BinaryOp) (l r : M F (Json F))
      → Keeps L L.Good l
      → Keeps L L.Good r
      → Keeps L L.Good (eval_binary op l r)
  unfolding eval_binary
  binary-Keeps BinaryOp.and l r kl kr =
      then-Keeps L.Good l _ kl
        (λ v g. if-Keeps L.Good (truthy v) r (give v) kr (give-Keeps L L.Good v g))
  binary-Keeps BinaryOp.or l r kl kr =
      then-Keeps L.Good l _ kl
        (λ v g. if-Keeps L.Good (truthy v) (give v) r (give-Keeps L L.Good v g) kr)
  binary-Keeps BinaryOp.coalesce l r kl kr =
      then-Keeps L.Good l _ kl
        (λ v g. if-Keeps L.Good (is_null v) r (give v) kr (give-Keeps L L.Good v g))
  binary-Keeps BinaryOp.equal l r kl kr = plain-Keeps BinaryOp.equal l r kl kr
  binary-Keeps BinaryOp.unequal l r kl kr = plain-Keeps BinaryOp.unequal l r kl kr
  binary-Keeps BinaryOp.lt l r kl kr = plain-Keeps BinaryOp.lt l r kl kr
  binary-Keeps BinaryOp.gt l r kl kr = plain-Keeps BinaryOp.gt l r kl kr
  binary-Keeps BinaryOp.le l r kl kr = plain-Keeps BinaryOp.le l r kl kr
  binary-Keeps BinaryOp.ge l r kl kr = plain-Keeps BinaryOp.ge l r kl kr
  binary-Keeps BinaryOp.add l r kl kr = plain-Keeps BinaryOp.add l r kl kr
  binary-Keeps BinaryOp.sub l r kl kr = plain-Keeps BinaryOp.sub l r kl kr
  binary-Keeps BinaryOp.mul l r kl kr = plain-Keeps BinaryOp.mul l r kl kr
  binary-Keeps BinaryOp.div l r kl kr = plain-Keeps BinaryOp.div l r kl kr
  binary-Keeps BinaryOp.mod_op l r kl kr = plain-Keeps BinaryOp.mod_op l r kl kr
  binary-Keeps BinaryOp.power l r kl kr = plain-Keeps BinaryOp.power l r kl kr

  mutual
    unfolding eval AdmitsExpr eval_member eval_index eval_unary eval_ternary

    pub eval-Keeps : (e : Expr F) → AdmitsExpr L.Good L.Key Calls e → Keeps L L.Good (eval s e)
    eval-Keeps (lit v) a = tick-Keeps L L.Good (give v) (give-Keeps L L.Good v a)
    eval-Keeps (ident n) a = tick-Keeps L L.Good (eval_ident s.env n) (ident-Keeps n)
    eval-Keeps (member obj n) a = tick-Keeps L L.Good _ (
        then-Keeps L.Good (eval s obj) _ (eval-Keeps obj a)
          (λ v g. answer-Keeps L L.Good (member_value v n) (member_value-Good L v n g)))
    eval-Keeps (index obj i) (a, b) = tick-Keeps L L.Good _ (
        then-Keeps L.Good (eval s obj) _ (eval-Keeps obj a) (λ v g.
          then-Keeps L.Good (eval s i) _ (eval-Keeps i b)
            (λ w g'. answer-Keeps L L.Good (index_value v w) (index_value-Good L v w g))))
    eval-Keeps (unary op e) a = tick-Keeps L L.Good _ (
        then-Keeps L.Good (eval s e) _ (eval-Keeps e a)
          (λ v g. answer-Keeps L L.Good (unary_value op v) (unary_value-Good L op v)))
    eval-Keeps (binary op l r) (a, b) =
        tick-Keeps L L.Good (eval_binary op (eval s l) (eval s r))
          (binary-Keeps op (eval s l) (eval s r) (eval-Keeps l a) (eval-Keeps r b))
    eval-Keeps (ternary c t o) (a, b, d) = tick-Keeps L L.Good _ (
        then-Keeps L.Good (eval s c) _ (eval-Keeps c a) (λ v g.
          if-Keeps L.Good (truthy v) (eval s t) (eval s o) (eval-Keeps t b) (eval-Keeps o d)))
    eval-Keeps (call fn args) (known, a) =
        tick-Keeps L L.Good _ (eval_call-Keeps L s.limit fn _ known (nth-Keeps args a))
    eval-Keeps (array_of items) a = tick-Keeps L L.Good _ (
        bind-Keeps L (EachItem L.Good) L.Good (eval_items s items) _ (items-Keeps items a)
          (λ vs g. give-Keeps L L.Good (array vs) (L.array_good vs g)))
    eval-Keeps (object_of props) a = tick-Keeps L L.Good _ (
        bind-Keeps L (EachField L.Key L.Good) L.Good (eval_props s props end) _
          (props-Keeps props end a tt)
          (λ fs g. give-Keeps L L.Good (object fs) (L.object_good fs g)))

    pub nth-Keeps :
        (es : Exprs F)
        → AdmitsExprs L.Good L.Key Calls es
        → (i : ℕ) → Keeps L L.Good (eval_nth s es i)
    nth-Keeps no_exprs a i = give-Keeps L L.Good null L.null_good
    nth-Keeps (expr e es) (a, b) zero = eval-Keeps e a
    nth-Keeps (expr e es) (a, b) (suc i) = nth-Keeps es b i

    pub items-Keeps :
        (es : Exprs F)
        → AdmitsExprs L.Good L.Key Calls es
        → Keeps L (EachItem L.Good) (eval_items s es)
    items-Keeps no_exprs a = give-Keeps L (EachItem L.Good) nil tt
    items-Keeps (expr e es) (a, b) =
        then-Keeps (EachItem L.Good) (eval s e) _ (eval-Keeps e a) (λ v g.
          bind-Keeps L (EachItem L.Good) (EachItem L.Good) (eval_items s es) _ (items-Keeps es b)
            (λ vs gs. give-Keeps L (EachItem L.Good) (cons v vs) (g, gs)))

    pub props-Keeps :
        (ps : Props F) (out : Fields F)
        → AdmitsProps L.Good L.Key Calls ps
        → EachField L.Key L.Good out
        → Keeps L (EachField L.Key L.Good) (eval_props s ps out)
    props-Keeps no_props out a g = give-Keeps L (EachField L.Key L.Good) out g
    props-Keeps (prop k e ps) out (key, a, b) g =
        then-Keeps (EachField L.Key L.Good) (eval s e) _ (eval-Keeps e a)
          (λ v gv. props-Keeps ps (set_field k v out) b (set_field-Good L k v out key gv g))
