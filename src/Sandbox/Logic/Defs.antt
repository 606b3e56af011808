-- ===== src/Sandbox/Logic/Defs.antt =====
-- internal/sandbox: the logic of executions, and its rules for the steps that the code is made of.
use ic.Prelude.{
  ◌≡◌, subst, refl, not, ◌&&◌, ◌==◌, ◌%◌, String, Bool, true, false, List, some, none,
  if◌then◌else◌,
}
use ic.Prelude.Int.{pos, ◌-ℤ◌, ltb_ℤ, pos_part}
use ic.Prelude.Dict.{lookup, insert}
use ic.Graph.Document.{
  Json, null, bool, float, text, array, object, Items, nil, cons, Fields, end, field,
}
use ic.Sandbox.Limits.{Fault, fault, ErrorCode}
use ic.Sandbox.Values.{Answer, value, failed}
use ic.Sandbox.Machine.{
  M, Interp, Ran, gave, stuck, Clock, Setting, after_run, ◌>>=◌, ◌>>◌, answer_with, tick,
  check_budget,
}

abbrev pub Ends : {F A : Type 0} → (A → Interp F → Type 0) → (Fault → Type 0) → Ran F A → Type 0
Ends P Q (gave a st) = P a st
Ends P Q (stuck f st) = Q f

abbrev pub EachItem : {F : Type 0} → (Json F → Type 0) → Items F → Type 0
EachItem P nil = Unit
EachItem P (cons v rest) = P v × EachItem P rest

abbrev pub EachField : {F : Type 0} → (String → Type 0) → (Json F → Type 0) → Fields F → Type 0
EachField K P end = Unit
EachField K P (field k v rest) = K k × P v × EachField K P rest

pub record Logic (F : Type 0) (s : Setting F) : Type 1 where
  -- The states, the values, the keys of objects and the faults.
  pub Inv : Interp F → Type 0
  pub Good : Json F → Type 0
  pub Key : String → Type 0
  pub Bad : Fault → Type 0
  pub faulted : (c : ErrorCode) → Bad (fault c)
  pub ticks : (st : Interp F) → Inv st → Ends (λ u st'. Inv st') Bad (tick s.clock st)
  pub from_env : (x : String) (v : Json F) → lookup x s.env ≡ some v → Good v
  pub from_local :
      (st : Interp F) (x : String) (v : Json F) → Inv st → lookup x st.local ≡ some v → Good v
  pub into_local :
      (st : Interp F) (x : String) (v : Json F)
      → Inv st
      → Good v
      → Inv (record st { local = insert x v st.local })
  pub into_notes :
      (st : Interp F) (notes : List String) → Inv st → Inv (record st { notes = notes })
  pub null_good : Good null
  pub bool_good : (b : Bool) → Good (bool b)
  pub float_good : (f : F) → Good (float f)
  pub text_good : (t : String) → Good (text t)
  pub array_good : (items : Items F) → EachItem Good items → Good (array items)
  pub items_good : (items : Items F) → Good (array items) → EachItem Good items
  pub object_good : (fields : Fields F) → EachField Key Good fields → Good (object fields)
  pub fields_good : (fields : Fields F) → Good (object fields) → EachField Key Good fields

pub none-some : {A : Type 0} {a : A} → none ≡ some a → ⊥
none-some h = cc

pub some-eq : {A : Type 0} {a b : A} → some a ≡ some b → a ≡ b
some-eq h = cc

-- A step keeps the invariant and gives what `G` admits, or a fault that is admitted.
abbrev pub Keeps : {F A : Type 0} {s : Setting F} → Logic F s → (A → Type 0) → M F A → Type 0
Keeps {F} L G m = (st : Interp F) → L.Inv st → Ends (λ a st'. L.Inv st' × G a) L.Bad (m st)

-- A pure answer that is admitted.
abbrev pub Fits : {F A : Type 0} {s : Setting F} → Logic F s → (A → Type 0) → Answer A → Type 0
Fits L G (value a) = G a
Fits L G (failed f) = L.Bad f

pub Ends-gave :
    {F A : Type 0} (P : A → Interp F → Type 0) (Q : Fault → Type 0) {r : Ran F A} {a : A}
    {st : Interp F}
    → Ends P Q r
    → r ≡ gave a st
    → P a st
Ends-gave P Q e h = subst (Ends P Q) h e

pub Ends-stuck :
    {F A : Type 0} (P : A → Interp F → Type 0) (Q : Fault → Type 0) {r : Ran F A} {f : Fault}
    {st : Interp F}
    → Ends P Q r
    → r ≡ stuck f st
    → Q f
Ends-stuck P Q e h = subst (Ends P Q) h e

pub if-all {ℓ κ} :
    {A : Type ℓ} (P : A → Type κ) (b : Bool) (x y : A) → P x → P y → P (if b then x else y)
if-all P true x y p q = p
if-all P false x y p q = q

-- A step takes one off the budget, and something is left.
pub tick-Ends :
    {F : Type 0} (P : Interp F → Type 0) (Q : Fault → Type 0) (clock : Clock) (st : Interp F)
    → (ltb_ℤ (pos 0) (st.budget -ℤ pos 1) ≡ true → P (record st { budget = st.budget -ℤ pos 1 }))
    → ((c : ErrorCode) → Q (fault c))
    → Ends (λ u st'. P st') Q (tick clock st)
unfolding tick check_budget
tick-Ends {F} P Q clock st p q = go (ltb_ℤ (pos 0) paid.budget) refl
  where
    paid : Interp F
    paid = record st { budget = st.budget -ℤ pos 1 }

    stop : ErrorCode → Ran F (Unit {0})
    stop c = stuck (fault c) paid

    E : Ran F (Unit {0}) → Type 0
    E = Ends (λ u st'. P st') Q

    go :
        (left : Bool)
        → ltb_ℤ (pos 0) paid.budget ≡ left
        → E (
            if not left
            then stop ErrorCode.script_limit
            else if (pos_part paid.budget % 256 == 0) && clock.late paid.budget
            then stop ErrorCode.script_timeout
            else if clock.ended paid.budget
            then stop ErrorCode.script_timeout
            else gave tt paid)
    go false e = q ErrorCode.script_limit
    go true e =
        if-all E ((pos_part paid.budget % 256 == 0) && clock.late paid.budget)
          (stop ErrorCode.script_timeout) _ (q ErrorCode.script_timeout)
          (if-all E (clock.ended paid.budget) (stop ErrorCode.script_timeout) (gave tt paid)
            (q ErrorCode.script_timeout) (p e))

module _ {F : Type 0} {s : Setting F} (L : Logic F s) where
  pub bind-Keeps :
      {A B : Type 0} (G : A → Type 0) (H : B → Type 0) (m : M F A) (next : A → M F B)
      → Keeps L G m
      → ((a : A) → G a → Keeps L H (next a))
      → Keeps L H (m >>= next)
  bind-Keeps {A} G H m next km kn st i = go (m st) (km st i)
    where
      go :
          (r : Ran F A)
          → Ends (λ a st'. L.Inv st' × G a) L.Bad r
          → Ends (λ b st'. L.Inv st' × H b) L.Bad (after_run r next)
      go (gave a st') (i', g) = kn a g st' i'
      go (stuck f st') bad = bad

  pub answer-Keeps :
      {A : Type 0} (G : A → Type 0) (a : Answer A) → Fits L G a → Keeps L G (answer_with a)
  answer-Keeps G (value a) g st i = (i, g)
  answer-Keeps G (failed f) g st i = g

  -- What is paid for first.
  pub tick-Keeps :
      {B : Type 0} (H : B → Type 0) (m : M F B) → Keeps L H m → Keeps L H (tick s.clock >> m)
  tick-Keeps H m km st i = go (tick s.clock st) (L.ticks st i)
    where
      go :
          (r : Ran F (Unit {0}))
          → Ends (λ u st'. L.Inv st') L.Bad r
          → Ends (λ b st'. L.Inv st' × H b) L.Bad (after_run r (λ _. m))
      go (gave u st') i' = km st' i'
      go (stuck f st') bad = bad
