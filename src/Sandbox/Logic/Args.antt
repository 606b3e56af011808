-- ===== src/Sandbox/Logic/Args.antt =====
-- internal/sandbox/hostfuncs.go under the logic of executions: the arguments of a call and what is
-- made of them.
use ic.Prelude.{ℕ, String, false, Option, none, some, leb, ltb}
use ic.Prelude.Int.{ℤ, pos}
use ic.Platform.Float.{Float64}
use ic.Graph.Document.{Json, null, bool, float, number, text, array, object}
use ic.Sandbox.Limits.{ErrorCode, Limits}
use ic.Sandbox.Values.{Host, to_text, to_number, item_count, is_null}
use ic.Sandbox.Machine.{M, Setting, give, fail, ◌>>=◌}
use ic.Sandbox.HostFuncs.{
  too_long, slice_text, Args, arg, bounded, number_or, join_items, join_loop, separator, int_arg,
  end_arg, slice_of, slice_items, clamp_range,
}
use ic.Sandbox.Logic.Defs.{Logic, Keeps, bind-Keeps, if-all}
use ic.Sandbox.Logic.Values.{slice_items-Good}

abbrev pub Any : {A : Type 0} → A → Type 0
Any a = Unit

module _ {F : Type 0} {s : Setting F} (L : Logic F s) where
  pub give-Keeps : {A : Type 0} (G : A → Type 0) (a : A) → G a → Keeps L G (give a)
  give-Keeps G a g st i = (i, g)

  pub fail-Keeps : {A : Type 0} (G : A → Type 0) (c : ErrorCode) → Keeps L G (fail c)
  fail-Keeps G c st i = L.faulted c

  -- The arguments of a call keep the invariant.
  abbrev pub KeepsArgs : Args F → Type 0
  KeepsArgs a = (i : ℕ) → Keeps L L.Good (a.eval_arg i)

  pub arg-Keeps : (a : Args F) (i : ℕ) → KeepsArgs a → Keeps L L.Good (arg a i)
  unfolding arg
  arg-Keeps a i k =
      if-all (Keeps L L.Good) (leb a.amount i) (give null) (a.eval_arg i)
        (give-Keeps L.Good null L.null_good) (k i)

  -- A function that goes on from an argument.
  pub arg-then :
      {B : Type 0} (H : B → Type 0) (a : Args F) (i : ℕ) (next : Json F → M F B)
      → KeepsArgs a
      → ((v : Json F) → L.Good v → Keeps L H (next v))
      → Keeps L H (arg a i >>= next)
  arg-then H a i next k h = bind-Keeps L L.Good H (arg a i) next (arg-Keeps a i k) h

  pub text-Keeps : (t : String) → Keeps L L.Good (give (text t))
  text-Keeps t = give-Keeps L.Good (text t) (L.text_good t)

module _ {F : Type 0} ⦃fl : Float64 F⦄ ⦃host : Host F⦄ {s : Setting F} (L : Logic F s)
    (limit : Limits) where
  pub bounded-Keeps : (t : String) → Keeps L L.Good (bounded limit t)
  bounded-Keeps t =
      if-all (Keeps L L.Good) (too_long limit t) (fail ErrorCode.script_limit) (give (text t))
        (fail-Keeps L L.Good _) (text-Keeps L t)

  pub number_or-Keeps : (c : ErrorCode) (v : Json F) → Keeps L Any (number_or limit c v)
  number_or-Keeps c v = go (to_number v)
    where
      go : (o : Option F) → Keeps L Any (elim o as (λ _. M F F) [ none ↦ fail c | some f ↦ give f ])
      go none = fail-Keeps L (Any {A = F}) c
      go (some f) = give-Keeps L (Any {A = F}) f tt

  pub joined-Keeps :
      (o : Option String)
      → Keeps L L.Good (elim o as (λ _. M F (Json F)) [
        | none ↦ fail ErrorCode.script_limit
        | some t ↦ give (text t)
      ])
  joined-Keeps none = fail-Keeps L L.Good _
  joined-Keeps (some t) = text-Keeps L t

  pub join_items-Keeps : (sep : String) (v : Json F) → Keeps L L.Good (join_items limit sep v)
  join_items-Keeps sep (array items) =
      if-all (Keeps L L.Good) (ltb 256 (item_count items)) (fail ErrorCode.script_limit) _
        (fail-Keeps L L.Good _) (joined-Keeps (join_loop limit sep items "" false))
  join_items-Keeps sep null = fail-Keeps L L.Good _
  join_items-Keeps sep (bool v) = fail-Keeps L L.Good _
  join_items-Keeps sep (float v) = fail-Keeps L L.Good _
  join_items-Keeps sep (number v) = fail-Keeps L L.Good _
  join_items-Keeps sep (text v) = fail-Keeps L L.Good _
  join_items-Keeps sep (object v) = fail-Keeps L L.Good _

  pub separator-Keeps : (a : Args F) → KeepsArgs L a → Keeps L Any (separator limit a)
  separator-Keeps a k =
      if-all (Keeps L Any) (ltb 1 a.amount) (arg a 1 >>= λ v. give (to_text v)) (give "")
        (arg-then L Any a 1 _ k (λ v g. give-Keeps L Any (to_text v) tt))
        (give-Keeps L (Any {A = String}) "" tt)

  pub int_arg-Keeps :
      (a : Args F) (i : ℕ) (default : ℤ) → KeepsArgs L a → Keeps L Any (int_arg limit a i default)
  unfolding int_arg
  int_arg-Keeps a i default k = arg-then L Any a i _ k (λ v g.
      if-all (Keeps L Any) (is_null v) (give default)
        (number_or limit ErrorCode.script_runtime v >>= λ f. give (fl.to_int f))
        (give-Keeps L Any default tt)
        (bind-Keeps L Any Any (number_or limit ErrorCode.script_runtime v) _
          (number_or-Keeps ErrorCode.script_runtime v) (λ f u. give-Keeps L Any (fl.to_int f) tt)))

  pub end_arg-Keeps : (a : Args F) (n : ℕ) → KeepsArgs L a → Keeps L Any (end_arg limit a n)
  end_arg-Keeps a n k =
      if-all (Keeps L Any) (ltb 2 a.amount) (int_arg limit a 2 (pos n)) (give (pos n))
        (int_arg-Keeps a 2 (pos n) k) (give-Keeps L Any (pos n) tt)

  pub slice_of-Keeps :
      (a : Args F) (start : ℤ) (v : Json F)
      → KeepsArgs L a
      → L.Good v
      → Keeps L L.Good (slice_of limit a start v)
  slice_of-Keeps a start (text t) k g =
      bind-Keeps L Any L.Good (end_arg limit a (host.rune_count t)) _
        (end_arg-Keeps a (host.rune_count t) k)
        (λ stop u.
          give-Keeps L L.Good (slice_text t (clamp_range (pos (host.rune_count t)) start stop))
            (L.text_good _))
  slice_of-Keeps a start (array items) k g =
      bind-Keeps L Any L.Good (end_arg limit a (item_count items)) _
        (end_arg-Keeps a (item_count items) k)
        (λ stop u.
          let range = clamp_range (pos (item_count items)) start stop in
          give-Keeps L L.Good (array (slice_items range items))
            (L.array_good _ (slice_items-Good L range items (L.items_good items g))))
  slice_of-Keeps a start null k g = fail-Keeps L L.Good _
  slice_of-Keeps a start (bool v) k g = fail-Keeps L L.Good _
  slice_of-Keeps a start (float v) k g = fail-Keeps L L.Good _
  slice_of-Keeps a start (number v) k g = fail-Keeps L L.Good _
  slice_of-Keeps a start (object v) k g = fail-Keeps L L.Good _
