-- ===== src/Sandbox/Examples.antt =====
-- Tests of the sandbox, and its theorems at concrete scripts.
use ic.Prelude.{
  String, List, ◌≡◌, refl, false, [], ◌∷◌, none, some, In, inl, inr, same, len, ◌*◌, ◌^◌, ◌+◌, suc,
  sort_strings,
}
use ic.Prelude.Int.{ℤ, pos, negsuc, ◌≤ℤ◌, ◌-ℤ◌, ◌+ℤ◌, ◌*ℤ◌}
use ic.Prelude.Dict.{lookup, insert, has}
use ic.Platform.Sample.{Sample, fin, sample_float}
use ic.Graph.Document.{Spec, text}
use ic.Sandbox.Limits.{default_limits, Limits, normalize, unknown_call}
use ic.Sandbox.Limits.Bounds.{normalize-bounds, Lies}
use ic.Sandbox.Values.{set_field, to_text}
use ic.Sandbox.Operators.{binary_value}
use ic.Sandbox.Machine.{gave, stuck, tick, check_budget}
use ic.Sandbox.HostFuncs.{eval_call, host_func_table, clamp_range}
use ic.Sandbox.HostFuncs.Slice.{clamp_range-bounds}
use ic.Sandbox.Syntax.{free_idents, free_expr, free_stmt, add_name}
use ic.Sandbox.Eval.{
  run_program, run, exec_stmt, exec_block, eval, eval_ident, eval_binary, store_local,
  and_then_stmt, object_result, implicit_out, start_interp,
}
use ic.Sandbox.Eval.Reads.{run_program-reads, Agree}
use ic.Sandbox.Analyze.{
  analyze_program, Analysis, calls_expr, calls_stmt, forbidden_expr, forbidden_stmt,
}
use ic.Sandbox.Unknown.{run_program-unknown_call}
use ic.Sandbox.Budget.{run_program-budget}
use ic.Sandbox.Work.{work_block}
use ic.Sandbox.Doubling.{exec_block-doublings, doublings, doubled}
use ic.Sandbox.Lexer.{Token, TokenKind, lex}
use ic.Sandbox.Lexer.Total.{lex_lem, Lexes}
use ic.Sandbox.Samples.{
  sample_host, quiet_clock, wide, narrow, setting_with, greeting, greeting_result, greeting_state,
  fetching, fetching_state,
}

greeting_run : run_program (setting_with narrow) greeting ≡ gave greeting_result greeting_state
unfolding run_program run exec_stmt eval eval_ident eval_binary store_local and_then_stmt
    object_result implicit_out start_interp tick check_budget lookup insert same binary_value
    to_text set_field ◌-ℤ◌
greeting_run = refl

fetching_run :
    run_program (setting_with narrow) fetching ≡ stuck (unknown_call "fetch") fetching_state
unfolding run_program run exec_stmt eval and_then_stmt start_interp tick check_budget eval_call
    host_func_table lookup same ◌-ℤ◌
fetching_run = refl

abbrev fetching_analysis : Analysis
fetching_analysis = record {
  reads = "prompt" ∷ [];
  calls = "fetch" ∷ [];
  unknown_calls = "fetch" ∷ [];
  forbidden = [];
}

fetching_analyzed : analyze_program fetching ≡ some fetching_analysis
unfolding analyze_program calls_expr calls_stmt forbidden_expr forbidden_stmt free_idents free_stmt
    free_expr add_name host_func_table has lookup same sort_strings
fetching_analyzed = refl

agree : Agree wide narrow (free_idents greeting)
unfolding free_idents free_stmt free_expr add_name lookup same
agree x m = elim m [ inl e ↦ rw e | inr (inl e) ↦ rw e | inr (inr r) ↦ absurd r ]

-- A secret of the environment that the script does not name makes no difference.
run_program-reads_example :
    run_program (setting_with wide) greeting ≡ run_program (setting_with narrow) greeting
run_program-reads_example = run_program-reads default_limits quiet_clock wide narrow greeting agree

abbrev greeting_text : String
greeting_text = "x = prompt + '!'; return { text: x }"

abbrev end_of_text : List (Token Sample)
end_of_text = record { kind = TokenKind.tok_eof; text = ""; num = fin (pos 0) } ∷ []

run_program-unknown_call_example : In "fetch" fetching_analysis.unknown_calls
run_program-unknown_call_example =
    run_program-unknown_call (setting_with narrow) fetching fetching_analysis fetching_analyzed
      "fetch" fetching_state fetching_run

default_is_normal : default_limits ≡ normalize default_limits
unfolding normalize ◌*ℤ◌
default_is_normal = refl

run_program-budget_example :
    (pos 1 ≤ℤ greeting_state.budget)
    × (greeting_state.budget +ℤ pos (work_block greeting) ≤ℤ default_limits.max_steps)
    × (default_limits.max_steps ≤ℤ pos 200000)
run_program-budget_example =
    run_program-budget (setting_with narrow) default_limits greeting default_is_normal
      greeting_result greeting_state greeting_run

abbrev greedy : Limits
greedy = record {
  timeout = negsuc 0;
  max_steps = pos 1000000;
  max_output_bytes = pos 10;
  max_string_bytes = pos 0;
}

normalize-bounds_example :
    Lies (normalize greedy).timeout (pos 1000000000)
    × Lies (normalize greedy).max_steps (pos 200000)
    × Lies (normalize greedy).max_output_bytes (pos 2097152)
    × Lies (normalize greedy).max_string_bytes (pos 524288)
    × (normalize (normalize greedy) ≡ normalize greedy)
normalize-bounds_example = normalize-bounds greedy

clamp_range-bounds_example :
    (pos 0 ≤ℤ (clamp_range (pos 5) (negsuc 2) (pos 9)).0)
    × ((clamp_range (pos 5) (negsuc 2) (pos 9)).0 ≤ℤ (clamp_range (pos 5) (negsuc 2) (pos 9)).1)
    × ((clamp_range (pos 5) (negsuc 2) (pos 9)).1 ≤ℤ pos 5)
    × (clamp_range
          (pos 5)
          (clamp_range (pos 5) (negsuc 2) (pos 9)).0
          (clamp_range (pos 5) (negsuc 2) (pos 9)).1
        ≡ clamp_range (pos 5) (negsuc 2) (pos 9))
clamp_range-bounds_example = clamp_range-bounds 5 (negsuc 2) (pos 9)

lex_lem_example : Lexes {F = Sample} (pos 65536) (lex (pos 65536) "x = `a` + 1 // done")
lex_lem_example = lex_lem Sample (pos 65536) "x = `a` + 1 // done"

always_quiet : (b : ℤ) → (quiet_clock.late b ≡ false) × (quiet_clock.ended b ≡ false)
always_quiet b = (refl, refl)

abbrev x_local : Spec Sample
x_local = ("x", text "ab") ∷ []

x_is_ab : lookup "x" x_local ≡ some (text "ab")
unfolding lookup same
x_is_ab = refl

-- Three lines make eight times the text.
exec_block-doublings_example :
    (after : Spec Sample) × (exec_block
        (setting_with narrow)
        (doublings 3)
        (record { local = x_local; budget = pos (3 * 4 + suc 5); notes = [] })
      ≡ gave none (record { local = after; budget = pos (suc 5); notes = [] }))
    × (lookup "x" after ≡ some (text (doubled 3 "ab")))
    × (len (doubled 3 "ab") ≡ 2 ^ 3 * len "ab")
exec_block-doublings_example =
    exec_block-doublings (setting_with narrow) always_quiet 3 x_local 5 [] "ab" x_is_ab
