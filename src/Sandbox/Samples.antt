-- ===== src/Sandbox/Samples.antt =====
-- A script, a setting and a host to try the sandbox with.
use ic.Prelude.{false, [], ◌∷◌, some, len}
use ic.Prelude.Int.{pos}
use ic.Platform.Sample.{Sample, sample_float}
use ic.Graph.Document.{Spec, text, Fields, end, field}
use ic.Sandbox.Limits.{default_limits}
use ic.Sandbox.Values.{Host}
use ic.Sandbox.Machine.{Clock, Setting, Interp}
use ic.Sandbox.Syntax.{
  ident, lit, binary, BinaryOp, object_of, call, expr, no_exprs, prop, no_props, Stmts, stmt,
  no_stmts, return_stmt, assign,
}

instance abbrev pub sample_host : Host Sample
sample_host = record {
  print_whole = λ f. "0";
  print_general = λ f. "0.5";
  marshal = λ v. some "{}";
  trim = λ s. s;
  to_upper = λ s. s;
  to_lower = λ s. s;
  replace_all = λ s from to. s;
  rune_count = len;
  rune_slice = λ s a b. s;
  char_at = λ s n. s;
  text_less = λ s t. false;
  negate = λ f. f;
  modulo = λ a b. a;
  pow = λ a b. a;
}

abbrev pub quiet_clock : Clock
quiet_clock = record { late = λ b. false; ended = λ b. false }

abbrev pub wide : Spec Sample
wide = ("prompt", text "a cat") ∷ ("secret", text "k") ∷ []

abbrev pub narrow : Spec Sample
narrow = ("prompt", text "a cat") ∷ []

abbrev pub setting_with : Spec Sample → Setting Sample
setting_with env = record { env = env; limit = default_limits; clock = quiet_clock }

-- x = prompt + "!"
-- return { text: x }
abbrev pub greeting : Stmts Sample
greeting =
    stmt (assign "x" (binary BinaryOp.add (ident "prompt") (lit (text "!"))))
      (stmt (return_stmt (object_of (prop "text" (ident "x") no_props))) no_stmts)

abbrev pub greeting_result : Fields Sample
greeting_result = field "text" (text "a cat!") end

abbrev pub greeting_state : Interp Sample
greeting_state = record { local = ("x", text "a cat!") ∷ []; budget = pos 19993; notes = [] }

-- return fetch(prompt)
abbrev pub fetching : Stmts Sample
fetching = stmt (return_stmt (call "fetch" (expr (ident "prompt") no_exprs))) no_stmts

abbrev pub fetching_state : Interp Sample
fetching_state = record { local = []; budget = pos 19998; notes = [] }
