-- ===== src/Sandbox/Spending.antt =====
-- internal/sandbox/eval.go: every evaluation pays for the work of its tree.
use ic.Prelude.{
  ℕ, ◌+◌, ◌≤◌, String, Bool, true, false, Option, none, some, arith, if◌then◌else◌, [],
}
use ic.Prelude.Int.{ℤ, pos, ◌≤ℤ◌, ◌-ℤ◌, -ℤ_parts}
use ic.Prelude.Dict.{lookup}
use ic.Platform.Float.{Float64}
use ic.Graph.Document.{Json, array, object, Items, nil, cons, Fields, end}
use ic.Sandbox.Values.{Host, truthy, is_null, member_value, set_field}
use ic.Sandbox.Operators.{index_value, unary_value, binary_value}
use ic.Sandbox.Machine.{M, Interp, Ran, gave, stuck, Setting, give, ◌>>=◌, answer_with}
use ic.Sandbox.Syntax.{
  BinaryOp, Expr, lit, ident, member, index, unary, binary, ternary, call, array_of, object_of,
  Exprs, no_exprs, expr, Props, no_props, prop, expr_count,
}
use ic.Sandbox.HostFuncs.{Args, eval_call}
use ic.Sandbox.Eval.{
  eval, eval_nth, eval_items, eval_props, eval_ident, eval_member, eval_index, eval_unary,
  eval_binary, eval_ternary, found_or,
}
use ic.Sandbox.Logic.Defs.{Logic, Ends, tick-Ends, if-all}
use ic.Sandbox.Logic.Calls.{eval_call-Keeps}
use ic.Sandbox.Logic.Scripts.{nth-Keeps}
use ic.Sandbox.Unknown.Walk.{admits_exprs, Any, each_item, each_field}
use ic.Sandbox.Work.{
  least, strict, work_expr, work_exprs, work_props, Spent, Pays, le-Pays, bind-Pays, give-Pays,
  answer-Pays, tick-Pays,
}

module _ {F : Type 0} ⦃fl : Float64 F⦄ ⦃host : Host F⦄ (s : Setting F) where
  abbrev Within : ℤ → Interp F → Type 0
  Within b st = st.budget ≤ℤ b

  tick-Within :
      (b : ℤ) (st : Interp F) → Within b st → Within b (record st { budget = st.budget -ℤ pos 1 })
  tick-Within b st h = omega (arith, h, -ℤ_parts st.budget (pos 1))

  -- Nothing gives a budget back.
  abbrev within_logic : ℤ → Logic F s
  within_logic b = record {
    Inv = Within b;
    Good = Any;
    Key = Any;
    Bad = Any;
    faulted = λ c. tt;
    ticks = λ st i. tick-Ends (Within b) Any s.clock st (λ _. tick-Within b st i) (λ c. tt);
    from_env = λ x v h. tt;
    from_local = λ st x v i h. tt;
    into_local = λ st x v i g. i;
    into_notes = λ st notes i. i;
    null_good = tt;
    bool_good = λ b. tt;
    float_good = λ f. tt;
    text_good = λ t. tt;
    array_good = λ items g. tt;
    items_good = λ items g. each_item items;
    object_good = λ fields g. tt;
    fields_good = λ fields g. each_field fields;
  }

  call-Pays :
      (name : String) (args : Exprs F)
      → Pays Any 0
          (eval_call s.limit name (record { amount = expr_count args; eval_arg = eval_nth s args }))
  call-Pays name args st = go (eval_call s.limit name a st) (
      eval_call-Keeps (within_logic st.budget) s.limit name a (λ _. tt)
        (nth-Keeps (within_logic st.budget) args (admits_exprs _ args [] (λ x m missing. tt))) st
        (omega arith))
    where
      a : Args F
      a = record { amount = expr_count args; eval_arg = eval_nth s args }

      go :
          (r : Ran F (Json F))
          → Ends (λ v st'. Within st.budget st' × Any v) Any r
          → Ends (λ v st'. Any v × Spent 0 st st') (λ f. Unit {0}) r
      go (gave v st') (i, g) = (tt, omega (arith, i))
      go (stuck f st') u = tt

  pub found_or-Pays :
      (o : Option (Json F)) (m : M F (Json F)) (st : Interp F)
      → Ends (λ v st'. Any v × Spent 0 st st') (λ f. Unit {0}) (m st)
      → Ends (λ v st'. Any v × Spent 0 st st') (λ f. Unit {0}) (found_or o m st)
  found_or-Pays none m st p = p
  found_or-Pays (some v) m st p = (tt, omega arith)

  ident-Pays : (n : String) → Pays Any 0 (eval_ident s.env n)
  unfolding eval_ident
  ident-Pays n st = found_or-Pays (lookup n st.local) _ st (found_or-Pays (lookup n s.env) _ st tt)

  -- One of two ways is taken.
  pub if-Pays :
      {A : Type 0} (G : A → Type 0) (b : Bool) (j k : ℕ) (m n : M F A)
      → Pays G j m
      → Pays G k n
      → Pays G (least j k) (if b then m else n)
  if-Pays G b j k m n pm pn =
      if-all (Pays G (least j k)) b m n (le-Pays G G (least j k) j m (ground arith) (λ a g. g) pm)
        (le-Pays G G (least j k) k n (ground arith) (λ a g. g) pn)

  -- A value that is needed, and what is made of it.
  pub then-Pays :
      {B : Type 0} (G : B → Type 0) (n j k : ℕ) (m : M F (Json F)) (next : Json F → M F B)
      → n ≤ j + k
      → Pays Any j m
      → ((v : Json F) → Pays G k (next v))
      → Pays G n (m >>= next)
  then-Pays G n j k m next h pm pn = bind-Pays Any G n j k m next h pm (λ v _. pn v)

  plain-Pays :
      (op : BinaryOp) (j k : ℕ) (l r : M F (Json F))
      → Pays Any j l
      → Pays Any k r
      → Pays Any (j + k) (l >>= λ v. r >>= λ w. answer_with (binary_value op v w))
  plain-Pays op j k l r pl pr =
      then-Pays Any (j + k) j k l _ (omega arith) pl
        (λ v. then-Pays Any k k 0 r _ (omega arith) pr (λ w. answer-Pays (binary_value op v w)))

  perhaps-Pays :
      (b : Json F → Bool) (flip : Bool) (j k : ℕ) (l r : M F (Json F))
      → Pays Any j l
      → Pays Any k r
      → Pays Any
          (j + 0)
          (l >>= λ v. if b v then (if flip then r else give v) else (if flip then give v else r))
  perhaps-Pays b flip j k l r pl pr =
      let any_r : Pays Any 0 r = le-Pays Any Any 0 k r (omega arith) (λ _ _. tt) pr in
      then-Pays Any (j + 0) j 0 l _ (omega arith) pl (λ v.
        if-all (Pays Any 0) (b v) _ _
          (if-all (Pays Any 0) flip r (give v) any_r (give-Pays Any v tt))
          (if-all (Pays Any 0) flip (give v) r (give-Pays Any v tt) any_r))

  binary-Pays :
      (op : BinaryOp) (j k : ℕ) (l r : M F (Json F))
      → Pays Any j l
      → Pays Any k r
      → Pays Any (j + strict op k) (eval_binary op l r)
  unfolding eval_binary
  binary-Pays BinaryOp.and j k l r pl pr = perhaps-Pays truthy true j k l r pl pr
  binary-Pays BinaryOp.or j k l r pl pr = perhaps-Pays truthy false j k l r pl pr
  binary-Pays BinaryOp.coalesce j k l r pl pr = perhaps-Pays is_null true j k l r pl pr
  binary-Pays BinaryOp.equal j k l r pl pr = plain-Pays BinaryOp.equal j k l r pl pr
  binary-Pays BinaryOp.unequal j k l r pl pr = plain-Pays BinaryOp.unequal j k l r pl pr
  binary-Pays BinaryOp.lt j k l r pl pr = plain-Pays BinaryOp.lt j k l r pl pr
  binary-Pays BinaryOp.gt j k l r pl pr = plain-Pays BinaryOp.gt j k l r pl pr
  binary-Pays BinaryOp.le j k l r pl pr = plain-Pays BinaryOp.le j k l r pl pr
  binary-Pays BinaryOp.ge j k l r pl pr = plain-Pays BinaryOp.ge j k l r pl pr
  binary-Pays BinaryOp.add j k l r pl pr = plain-Pays BinaryOp.add j k l r pl pr
  binary-Pays BinaryOp.sub j k l r pl pr = plain-Pays BinaryOp.sub j k l r pl pr
  binary-Pays BinaryOp.mul j k l r pl pr = plain-Pays BinaryOp.mul j k l r pl pr
  binary-Pays BinaryOp.div j k l r pl pr = plain-Pays BinaryOp.div j k l r pl pr
  binary-Pays BinaryOp.mod_op j k l r pl pr = plain-Pays BinaryOp.mod_op j k l r pl pr
  binary-Pays BinaryOp.power j k l r pl pr = plain-Pays BinaryOp.power j k l r pl pr

  mutual
    unfolding eval work_expr eval_member eval_index eval_unary eval_ternary

    pub expr-Pays : (e : Expr F) → Pays Any (work_expr e) (eval s e)
    expr-Pays (lit v) = tick-Pays Any 0 s.clock (give v) (give-Pays Any v tt)
    expr-Pays (ident n) = tick-Pays Any 0 s.clock (eval_ident s.env n) (ident-Pays n)
    expr-Pays (member obj n) = tick-Pays Any (work_expr obj) s.clock _ (
        then-Pays Any (work_expr obj) (work_expr obj) 0 (eval s obj) _ (omega arith) (expr-Pays obj)
          (λ v. answer-Pays (member_value v n)))
    expr-Pays (index obj i) = tick-Pays Any (work_expr obj + work_expr i) s.clock _ (
        then-Pays Any (work_expr obj + work_expr i) (work_expr obj) (work_expr i) (eval s obj) _
          (omega arith) (expr-Pays obj)
          (λ v.
            then-Pays Any (work_expr i) (work_expr i) 0 (eval s i) _ (omega arith) (expr-Pays i)
              (λ w. answer-Pays (index_value v w))))
    expr-Pays (unary op e) = tick-Pays Any (work_expr e) s.clock _ (
        then-Pays Any (work_expr e) (work_expr e) 0 (eval s e) _ (omega arith) (expr-Pays e)
          (λ v. answer-Pays (unary_value op v)))
    expr-Pays (binary op l r) =
        tick-Pays Any (work_expr l + strict op (work_expr r)) s.clock
          (eval_binary op (eval s l) (eval s r))
          (binary-Pays op (work_expr l) (work_expr r) (eval s l) (eval s r) (expr-Pays l)
            (expr-Pays r))
    expr-Pays (ternary c t o) =
        let either = least (work_expr t) (work_expr o) in
        tick-Pays Any (work_expr c + either) s.clock _ (
          then-Pays Any (work_expr c + either) (work_expr c) either (eval s c) _ (omega arith)
            (expr-Pays c)
            (λ v.
              if-Pays Any (truthy v) (work_expr t) (work_expr o) (eval s t) (eval s o) (expr-Pays t)
                (expr-Pays o)))
    expr-Pays (call fn args) = tick-Pays Any 0 s.clock _ (call-Pays fn args)
    expr-Pays (array_of items) = tick-Pays Any (work_exprs items) s.clock _ (
        bind-Pays Any Any (work_exprs items) (work_exprs items) 0 (eval_items s items) _
          (omega arith) (items-Pays items) (λ vs _. give-Pays Any (array vs) tt))
    expr-Pays (object_of props) = tick-Pays Any (work_props props) s.clock _ (
        bind-Pays Any Any (work_props props) (work_props props) 0 (eval_props s props end) _
          (omega arith) (props-Pays props end) (λ fs _. give-Pays Any (object fs) tt))

    items-Pays : (es : Exprs F) → Pays Any (work_exprs es) (eval_items s es)
    items-Pays no_exprs = give-Pays {A = Items F} Any nil tt
    items-Pays (expr e es) =
        then-Pays Any (work_expr e + work_exprs es) (work_expr e) (work_exprs es) (eval s e) _
          (omega arith) (expr-Pays e)
          (λ v.
            bind-Pays Any Any (work_exprs es) (work_exprs es) 0 (eval_items s es) _ (omega arith)
              (items-Pays es) (λ vs _. give-Pays Any (cons v vs) tt))

    props-Pays : (ps : Props F) (out : Fields F) → Pays Any (work_props ps) (eval_props s ps out)
    props-Pays no_props out = give-Pays Any out tt
    props-Pays (prop k e ps) out =
        then-Pays Any (work_expr e + work_props ps) (work_expr e) (work_props ps) (eval s e) _
          (omega arith) (expr-Pays e) (λ v. props-Pays ps (set_field k v out))
