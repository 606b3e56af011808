-- ===== src/Sandbox/Parser/Makes.antt =====
-- internal/sandbox/parser.go: what a parser makes, if it makes anything, and the rules for its steps.
use ic.Prelude.{ℕ, ◌+◌, Bool, List, [], ◌∷◌, ltb, if◌then◌else◌}
use ic.Sandbox.Limits.{ErrorCode}
use ic.Sandbox.Syntax.{Expr, Exprs, Props, Stmt, Stmts}
use ic.Sandbox.Lexer.{Token}
use ic.Sandbox.Clean.{IsClean, IsOrdinary}
use ic.Sandbox.Logic.Defs.{if-all}
use ic.Sandbox.Logic.Admits.{AdmitsExpr, AdmitsExprs, AdmitsProps, AdmitsStmt, AdmitsStmts}
use ic.Sandbox.Parser.Rules.{
  Parsed, parsed, parse_failed, past_the_end, parse_out_of_fuel, P, after_part, ◌>>=◌, give, next,
  refuse, enter,
}

unfoldable pub Told : {F A : Type 0} → (A → Type 0) → Parsed F A → Type 0
Told G (parsed a ts) = G a
Told G _ = Unit

-- What the parser makes, if it makes anything, is as told.
abbrev pub Makes : {F A : Type 0} → (A → Type 0) → P F A → Type 0
Makes {F} G m = (ts : List (Token F)) → Told G (m ts)

abbrev pub Any : {A : Type 0} → A → Type 0
Any a = Unit

pub bind-Makes :
    {F A B : Type 0} (G : A → Type 0) (H : B → Type 0) (m : P F A) (next : A → P F B)
    → Makes G m
    → ((a : A) → G a → Makes H (next a))
    → Makes H (m >>= next)
unfolding Told
bind-Makes {F} {A} G H m next km kn ts = go (m ts) (km ts)
  where
    go : (r : Parsed F A) → Told G r → Told H (after_part r next)
    go (parsed a rest) g = kn a g rest
    go (parse_failed f) g = tt
    go past_the_end g = tt
    go parse_out_of_fuel g = tt

pub Any-Told : {F A : Type 0} (r : Parsed F A) → Told Any r
unfolding Told
Any-Told (parsed a ts) = tt
Any-Told (parse_failed f) = tt
Any-Told past_the_end = tt
Any-Told parse_out_of_fuel = tt

-- After a step whose result does not matter.
pub step-Makes :
    {F A B : Type 0} (H : B → Type 0) (m : P F A) (next : A → P F B)
    → ((a : A) → Makes H (next a))
    → Makes H (m >>= next)
step-Makes H m next kn = bind-Makes Any H m next (λ ts. Any-Told (m ts)) (λ a u. kn a)

pub give-Makes : {F A : Type 0} (G : A → Type 0) (a : A) → G a → Makes {F = F} G (give a)
unfolding Told
give-Makes G a g ts = g

pub refuse-Makes : {F A : Type 0} (G : A → Type 0) (c : ErrorCode) → Makes {F = F} G (refuse c)
unfolding Told
refuse-Makes G c [] = tt
refuse-Makes G c (t ∷ ts) = tt

pub fuel-Makes : {F A : Type 0} (G : A → Type 0) → Makes {F = F} {A = A} G (λ ts. parse_out_of_fuel)
unfolding Told
fuel-Makes G ts = tt

pub if-Makes :
    {F A : Type 0} (G : A → Type 0) (b : Bool) (m n : P F A)
    → Makes G m
    → Makes G n
    → Makes G (if b then m else n)
if-Makes G b m n = if-all (Makes G) b m n

pub enter-Makes :
    {F A : Type 0} (G : A → Type 0) (d : ℕ) (m : ℕ → P F A)
    → Makes G (m (d + 1))
    → Makes G (enter d m)
enter-Makes G d m k =
    if-Makes G (ltb 32 (d + 1)) (refuse ErrorCode.script_limit) (m (d + 1)) (refuse-Makes G _) k

module _ {F : Type 0} where
  abbrev pub CleanExpr : Expr F → Type 0
  CleanExpr = AdmitsExpr IsClean IsOrdinary (λ n. Unit {0})

  abbrev pub CleanExprs : Exprs F → Type 0
  CleanExprs = AdmitsExprs IsClean IsOrdinary (λ n. Unit {0})

  abbrev pub CleanProps : Props F → Type 0
  CleanProps = AdmitsProps IsClean IsOrdinary (λ n. Unit {0})

  abbrev pub CleanStmt : Stmt F → Type 0
  CleanStmt = AdmitsStmt IsClean IsOrdinary (λ n. Unit {0})

  abbrev pub CleanStmts : Stmts F → Type 0
  CleanStmts = AdmitsStmts IsClean IsOrdinary (λ n. Unit {0})
