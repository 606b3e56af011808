-- ===== src/Sandbox/Logic/Calls.antt =====
-- internal/sandbox/hostfuncs.go under the logic of executions: the host functions and the call.
use ic.Prelude.{
  ◌≡◌, refl, String, Option, none, some, same, if◌then◌else◌, ltb, List, [], ◌∷◌, inl, inr,
  Bool-cases, subst,
}
use ic.Prelude.Int.{pos}
use ic.Prelude.Dict.{lookup}
use ic.Platform.Float.{Float64}
use ic.Graph.Document.{Json, float, text}
use ic.Sandbox.Limits.{unknown_call, ErrorCode, Limits}
use ic.Sandbox.Values.{Host, to_text, length_of, count}
use ic.Sandbox.Machine.{M, Setting, stuck, give, fail, ◌>>=◌}
use ic.Sandbox.HostFuncs.{
  Args, HostFunc, arg, number_or, separator, int_arg, is_blank, add_note, host_string, host_number,
  host_len, host_join, host_trim, host_slice, host_upper, host_lower, host_replace, host_default,
  host_has, host_toast, host_log, host_func_table, eval_call,
}
use ic.Sandbox.Logic.Defs.{none-some, some-eq, Logic, Keeps, bind-Keeps, if-all}
use ic.Sandbox.Logic.Args.{
  Any, give-Keeps, fail-Keeps, KeepsArgs, arg-Keeps, arg-then, text-Keeps, bounded-Keeps,
  number_or-Keeps, join_items-Keeps, separator-Keeps, int_arg-Keeps, slice_of-Keeps,
}

module _ {F : Type 0} ⦃fl : Float64 F⦄ ⦃host : Host F⦄ {s : Setting F} (L : Logic F s)
    (limit : Limits) where
  host_string-Keeps : (a : Args F) → KeepsArgs L a → Keeps L L.Good (host_string limit a)
  unfolding host_string
  host_string-Keeps a k = arg-then L L.Good a 0 _ k (λ v g. bounded-Keeps L limit (to_text v))

  host_len-Keeps : (a : Args F) → KeepsArgs L a → Keeps L L.Good (host_len limit a)
  unfolding host_len
  host_len-Keeps a k =
      arg-then L L.Good a 0 _ k (λ v g. give-Keeps L L.Good (count (length_of v)) (L.float_good _))

  host_number-Keeps : (a : Args F) → KeepsArgs L a → Keeps L L.Good (host_number limit a)
  unfolding host_number
  host_number-Keeps a k = arg-then L L.Good a 0 _ k (λ v g.
      bind-Keeps L Any L.Good (number_or limit ErrorCode.script_runtime v) _
        (number_or-Keeps L limit ErrorCode.script_runtime v)
        (λ f u. give-Keeps L L.Good (float f) (L.float_good f)))

  host_join-Keeps : (a : Args F) → KeepsArgs L a → Keeps L L.Good (host_join limit a)
  unfolding host_join
  host_join-Keeps a k =
      bind-Keeps L Any L.Good (separator limit a) _ (separator-Keeps L limit a k)
        (λ sep u. arg-then L L.Good a 0 _ k (λ v g. join_items-Keeps L limit sep v))

  -- A text made of the first argument.
  text_of-Keeps :
      (change : String → String) (a : Args F)
      → KeepsArgs L a
      → Keeps L L.Good (arg a 0 >>= λ v. give (text (change (to_text v))))
  text_of-Keeps change a k = arg-then L L.Good a 0 _ k (λ v g. text-Keeps L (change (to_text v)))

  host_slice-Keeps : (a : Args F) → KeepsArgs L a → Keeps L L.Good (host_slice limit a)
  unfolding host_slice
  host_slice-Keeps a k = arg-then L L.Good a 0 _ k (λ v g.
      bind-Keeps L Any L.Good (int_arg limit a 1 (pos 0)) _ (int_arg-Keeps L limit a 1 (pos 0) k)
        (λ start u. slice_of-Keeps L limit a start v k g))

  host_replace-Keeps : (a : Args F) → KeepsArgs L a → Keeps L L.Good (host_replace limit a)
  unfolding host_replace
  host_replace-Keeps a k = arg-then L L.Good a 0 _ k (λ v g.
      arg-then L L.Good a 1 _ k
        (λ w g'. arg-then L L.Good a 2 _ k (λ x g''. bounded-Keeps L limit _)))

  host_default-Keeps : (a : Args F) → KeepsArgs L a → Keeps L L.Good (host_default limit a)
  unfolding host_default
  host_default-Keeps a k = arg-then L L.Good a 0 _ k (λ v g.
      if-all (Keeps L L.Good) (is_blank limit v) (arg a 1) (give v) (arg-Keeps L a 1 k)
        (give-Keeps L L.Good v g))

  host_has-Keeps : (a : Args F) → KeepsArgs L a → Keeps L L.Good (host_has limit a)
  unfolding host_has
  host_has-Keeps a k =
      arg-then L L.Good a 0 _ k
        (λ v g. arg-then L L.Good a 1 _ k (λ w g'. give-Keeps L L.Good _ (L.bool_good _)))

  noted-Keeps :
      (a : Args F) → KeepsArgs L a → Keeps L L.Good (arg a 0 >>= λ v. add_note limit (to_text v))
  noted-Keeps a k = arg-then L L.Good a 0 _ k (λ v g st i. (L.into_notes st _ i, L.null_good))

  -- A name of the table belongs to one of its functions.
  Among : List (String × HostFunc F) → Type 0
  Among [] = Unit
  Among ((name, f) ∷ table) = ((a : Args F) → KeepsArgs L a → Keeps L L.Good (f a)) × Among table

  lookup-Among :
      (name : String) (table : List (String × HostFunc F)) (f : HostFunc F) (a : Args F)
      → Among table
      → lookup name table ≡ some f
      → KeepsArgs L a
      → Keeps L L.Good (f a)
  unfolding lookup Among
  lookup-Among name [] f a all h k = absurd (none-some h)
  lookup-Among name ((j, g) ∷ table) f a (kg, all) h k = elim (Bool-cases (same j name)) [
    | inl hit ↦ subst (λ (x : HostFunc F). Keeps L L.Good (x a)) (some-eq (rw hit at h)) (kg a k)
    | inr miss ↦ lookup-Among name table f a all (rw miss at h) k
  ]

  table-Among : Among (host_func_table limit)
  unfolding Among host_func_table host_trim host_upper host_lower host_toast host_log
  table-Among = (
    host_string-Keeps,
    (
      host_number-Keeps,
      (
        host_len-Keeps,
        (
          host_join-Keeps,
          (
            text_of-Keeps host.trim,
            (
              host_slice-Keeps,
              (
                text_of-Keeps host.to_upper,
                (
                  text_of-Keeps host.to_lower,
                  (
                    host_replace-Keeps,
                    (host_default-Keeps, (host_has-Keeps, (noted-Keeps, (noted-Keeps, tt)))),
                  ),
                ),
              ),
            ),
          ),
        ),
      ),
    ),
  )

  -- A call keeps the invariant where its arguments do, if the logic admits the fault of a function
  -- that is not there.
  pub eval_call-Keeps :
      (name : String) (a : Args F)
      → (lookup name (host_func_table {F = F} limit) ≡ none → L.Bad (unknown_call name))
      → KeepsArgs L a
      → Keeps L L.Good (eval_call limit name a)
  unfolding eval_call
  eval_call-Keeps name a known k = go (lookup name (host_func_table limit)) refl
    where
      go :
          (o : Option (HostFunc F))
          → lookup name (host_func_table {F = F} limit) ≡ o
          → Keeps L L.Good (elim o as (λ _. M F (Json F)) [
            | none ↦ λ st. stuck (unknown_call name) st
            | some f ↦ if ltb 8 a.amount then fail ErrorCode.script_limit else f a
          ])
      go none e = λ st i. known e
      go (some f) e =
          if-all (Keeps L L.Good) (ltb 8 a.amount) (fail ErrorCode.script_limit) (f a)
            (fail-Keeps L L.Good _) (lookup-Among name (host_func_table limit) f a table-Among e k)
