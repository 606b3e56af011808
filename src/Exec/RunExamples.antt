-- ===== src/Exec/RunExamples.antt =====
-- The theorems on compiles and runs, at the canvas and the world of RunSamples.
use ic.Prelude.{
  ◌≡◌, refl, ◌≢◌, ◌⊎◌, inl, inr, ◌≤◌, String, true, false, List, [], ◌∷◌, Option, none, some, arith,
  AllDistinct, In, same, sort_strings, itoa, trim_space,
}
use ic.Prelude.Int.{pos, pos_part, ◌≤ℤ◌, ltb_ℤ}
use ic.Prelude.Dict.{lookup, insert}
use ic.Platform.Sample.{Sample, fin, sample_float}
use ic.Graph.Document.{Node, find_node, upstream_of, edge_ids, edges_where, children_of, node_ids}
use ic.Provider.Errors.{of_class, ErrorClass, ProviderError, retryable}
use ic.Exec.Cost.{apply_cost}
use ic.Exec.Plan.{Plan, PlanStep, Step, StepStatus, terminal}
use ic.Exec.Retry.{next}
use ic.Exec.Collect.{collect_targets}
use ic.Exec.Compile.{compile, compiled}
use ic.Exec.Compile.Sound.{compile-IsSound, compile-execute, Ends}
use ic.Exec.Engine.{Executed, execute}
use ic.Exec.Compile.{order_steps, resolve_steps}
use ic.Exec.Collect.{
  collect, collect_all, visit_node, append_step, step_for, text_field, int_from_spec, fields_of,
}
use ic.Provider.Capability.{parse_capability, valid_capability}
use ic.Exec.Sort.{
  topo_sort, kahn, release, total, zeros, in_degrees, increase_each, increase, free_ids, followers,
  step_of, restore, last_depends,
}
use ic.Exec.Inputs.{
  resolve_inputs, label_inputs, sort_edges, insert_edge, edge_before, order_of,
  resolve_node_as_input, media_input, kind_label,
}
use ic.Exec.StepMap.{
  depends_on_nodes, by_node, put_step, by_id, deps_satisfied, summarize, primary_error, count_if,
  mark_canceled,
}
use ic.Exec.Engine.{execute_steps, execute_one, link_steps, link_one, conclude, finish_run}
use ic.Exec.Attempts.{
  run_step, attempt_loop, complete, persist_outputs, materialize_inputs, write_result,
  to_provider_error,
}
use ic.Exec.Retry.{should_retry, clamp_duration}
use ic.Exec.Plan.{recompute_usage, add_steps, add_attempts}
use ic.Exec.Cost.{add_usage}
use ic.Graph.Document.{new_document}
use ic.Prelude.Int.{◌+ℤ◌, ◌-ℤ◌, ◌*ℤ◌}
use ic.Prelude.{ℕ, ap, same_iff, ◌↔◌}
use ic.Provider.Errors.{classify_http, retryable-classify_http}
use ic.Platform.Errors.{Result, ok, err}
use ic.Prelude.Dict.{has}
use ic.Graph.Validate.{valid_capability_string}
use ic.Exec.RunStore.{
  new_memory_store, new_run, create, existing_run, find_by_idempotency_key, save_run, is_taken,
  page_limit, list_runs,
}
use ic.Exec.RunStore.Once.{create-create}
use ic.Exec.RunStore.Listing.{IsPage, list_runs-IsPage}
use ic.Exec.AdHoc.{compile_ad_hoc, execute_ad_hoc, reference_inputs, clamp_count}
use ic.Exec.AdHoc.Limits.{Concluded, IsModest, compile_ad_hoc-IsModest, execute_ad_hoc-ends}
use ic.Exec.Retry.Bounds.{Heeds, next_bounds}
use ic.Exec.Collect.Steps.{IsGood, Leaves}
use ic.Exec.Collect.Fuel.{collect_targets-IsGood}
use ic.Exec.Sort.{sorted, unended}
use ic.Exec.Sort.Ends.{topo_sort-unended}
use ic.Exec.Sort.Plain.{plan_ids, topo_sort-sort_strings}
use ic.Exec.Attempts.{StepRun}
use ic.Exec.Attempts.Count.{Keeps, Settled, calls, run_step-max_attempts}
use ic.Exec.Engine.Order.{Ordered}
use ic.Exec.Engine.Turns.{plan_nodes}
use ic.Exec.Engine.Finish.{execute-Ordered}
use ic.Exec.Engine.Edges.{Fed}
use ic.Exec.Engine.Summary.{Summed, execute-Summed}
use ic.Exec.RunSamples.{
  canvas, policy, world, fresh_run, the_plan, statuses, lone, one_step, request, kept, store,
}

program : Unit {0}
unfolding compile order_steps resolve_steps collect_targets collect collect_all visit_node
    append_step step_for text_field int_from_spec fields_of parse_capability valid_capability
    trim_space children_of node_ids upstream_of edge_ids edges_where sort_strings topo_sort kahn
    release total zeros in_degrees increase_each increase free_ids followers step_of restore
    last_depends resolve_inputs label_inputs sort_edges insert_edge edge_before order_of
    resolve_node_as_input media_input kind_label itoa execute execute_steps execute_one link_steps
    link_one depends_on_nodes by_node put_step by_id deps_satisfied run_step attempt_loop complete
    persist_outputs materialize_inputs write_result to_provider_error next should_retry
    clamp_duration conclude finish_run recompute_usage summarize primary_error count_if
    mark_canceled add_steps add_attempts add_usage apply_cost lookup insert new_document same ◌+ℤ◌
    ◌-ℤ◌ ◌*ℤ◌ terminal retryable
program = tt

abbrev finished : Option (Executed Sample)
finished = execute world (λ a b. a) policy fresh_run the_plan canvas

compiles : compile none canvas ("a" ∷ []) ≡ compiled the_plan
unfolding program
compiles = refl

-- The step of "a" is skipped, since its turn comes before that of "z", and the run is succeeded.
skips : statuses finished ≡ StepStatus.skipped ∷ StepStatus.succeeded ∷ []
unfolding program
skips = refl

keyed : (k : String) (n : Node Sample) → find_node canvas k ≡ some n → n.id ≡ k
unfolding lookup
keyed k n h = ground (arith, same_iff "p" k, same_iff "z" k, same_iff "a" k)

compile-IsSound_example : Ends (compile none canvas ("a" ∷ []))
compile-IsSound_example = compile-IsSound none canvas keyed ("a" ∷ [])

compile-execute_example :
    (x : Executed Sample) × (execute world (λ a b. a) policy fresh_run the_plan canvas ≡ some x)
    × Ordered x.run.steps
    × Fed canvas x.run.steps
    × (world.ended_at_start ≡ false → (s : Step) → In s x.run.steps → terminal s.status ≡ true)
compile-execute_example =
    compile-execute none canvas keyed world (λ a b. a) policy fresh_run ("a" ∷ []) the_plan compiles
      refl

collect_targets-IsGood_example : Leaves IsGood (collect_targets none canvas ("a" ∷ "p" ∷ []))
collect_targets-IsGood_example = collect_targets-IsGood none canvas keyed ("a" ∷ "p" ∷ [])

two_apart : (a b : String) → same a b ≡ false → AllDistinct (a ∷ b ∷ [])
two_apart a b h = ground (arith, same_iff a b)

ids_apart : AllDistinct (plan_ids the_plan.steps)
unfolding program
ids_apart = two_apart "st_a" "st_z" refl

nodes_apart : AllDistinct (plan_nodes the_plan.steps)
unfolding program
nodes_apart = two_apart "a" "z" refl

execute-Summed_example :
    (x : Executed Sample) × (execute world (λ a b. a) policy fresh_run the_plan canvas ≡ some x)
    × Summed world (λ a b. a) policy fresh_run the_plan x
execute-Summed_example =
    execute-Summed world (λ a b. a) policy fresh_run the_plan canvas ids_apart nodes_apart refl refl

execute-Ordered_example :
    (x : Executed Sample) × (execute world (λ a b. a) policy fresh_run the_plan canvas ≡ some x)
    × Ordered x.run.steps
    × (world.ended_at_start ≡ false → (s : Step) → In s x.run.steps → terminal s.status ≡ true)
execute-Ordered_example =
    execute-Ordered world (λ a b. a) policy fresh_run the_plan canvas ids_apart nodes_apart refl

topo_sort-unended_example : topo_sort (lone "b" ("st_a" ∷ []) ∷ lone "a" [] ∷ []) ≢ unended
topo_sort-unended_example = topo_sort-unended (lone "b" ("st_a" ∷ []) ∷ lone "a" [] ∷ [])

stepped_apart : AllDistinct (plan_ids (lone "b" [] ∷ lone "a" [] ∷ []))
unfolding program
stepped_apart = two_apart "st_b" "st_a" refl

topo_sort-sort_strings_example :
    (r : List (PlanStep Sample)) × (topo_sort (lone "b" [] ∷ lone "a" [] ∷ []) ≡ sorted r)
    × (plan_ids r ≡ sort_strings ("st_b" ∷ "st_a" ∷ []))
    × ((s : PlanStep Sample) → In s r → In s (lone "b" [] ∷ lone "a" [] ∷ []))
topo_sort-sort_strings_example =
    topo_sort-sort_strings (lone "b" [] ∷ lone "a" [] ∷ [])
      (λ s m. elim m [
        | inl e ↦ ap (λ (x : PlanStep Sample). x.depends_on) e
        | inr (inl e) ↦ ap (λ (x : PlanStep Sample). x.depends_on) e
        | inr (inr nowhere) ↦ absurd nowhere
      ])
      stepped_apart

run_step-max_attempts_example :
    (r : StepRun Sample) × (run_step world (λ a b. a) policy fresh_run one_step (lone "a" [])
      ≡ some r)
    × Keeps one_step r.step
    × Settled r
    × ((calls r.trace ≤ 1) ⊎ (calls r.trace ≤ pos_part policy.max_attempts))
run_step-max_attempts_example =
    run_step-max_attempts world (λ a b. a) policy fresh_run one_step (lone "a" [])

abbrev slow_down : ProviderError
slow_down = record (of_class ErrorClass.rate_limited "slow_down") { retry_after = pos 2 }

next_bounds_example :
    (pos 0 ≤ℤ next (λ a b. a) policy (fin (pos 0)) 1 (some slow_down))
    × (next (λ a b. a) policy (fin (pos 0)) 1 (some slow_down) ≤ℤ policy.max_backoff)
    × ((next (λ a b. a) policy (fin (pos 0)) 1 (some slow_down) ≡ pos 0)
        ⊎ ((retryable slow_down ≡ true)
            × (ltb_ℤ (pos 1) policy.max_attempts ≡ true)
            × Heeds slow_down policy.max_backoff
                (next (λ a b. a) policy (fin (pos 0)) 1 (some slow_down))))
next_bounds_example = next_bounds (λ a b. a) policy (fin (pos 0)) 1 slow_down (omega arith)

abbrev server_error : ℕ
server_error = 503

retryable-classify_http_example :
    (retryable (classify_http (λ s. s) server_error "") ≡ true)
    ↔ ((server_error ≡ 408) ⊎ ((server_error ≡ 429) ⊎ (500 ≤ server_error)))
retryable-classify_http_example = retryable-classify_http (λ s. s) server_error ""

text_apart : (a b : String) → same a b ≡ false → a ≢ b
text_apart a b h e = ground (arith, same_iff a b)

creates : create request "r1" 7 new_memory_store ≡ ok (kept, store)
unfolding create existing_run find_by_idempotency_key save_run is_taken new_run has program
creates = refl

keyed_request : request.idempotency_key ≢ ""
unfolding program
keyed_request = text_apart "k1" "" refl

create-create_example : create request "r2" 9 store ≡ ok (kept, store)
create-create_example =
    create-create request "r1" "r2" 7 9 new_memory_store store kept keyed_request creates

list_runs-IsPage_example :
    (page_limit (pos 0) ≤ 200)
    × IsPage "w" "" store (page_limit (pos 0)) store.order (list_runs "w" "" (pos 0) store)
list_runs-IsPage_example = list_runs-IsPage "w" "" store (pos 0)

abbrev direct_of : Result (Plan Sample) → Plan Sample
direct_of (ok p) = p
direct_of (err e) = record { steps = []; order = [] }

abbrev direct : Plan Sample
direct = direct_of (compile_ad_hoc kept)

compiles_directly : compile_ad_hoc kept ≡ ok direct
unfolding compile_ad_hoc new_run valid_capability_string reference_inputs clamp_count program
compiles_directly = refl

compile_ad_hoc-IsModest_example : IsModest direct
compile_ad_hoc-IsModest_example = compile_ad_hoc-IsModest kept direct compiles_directly

execute_ad_hoc-ends_example :
    (x : Executed Sample) × (s : Step) × (execute_ad_hoc world
        (λ a b. a)
        policy
        kept
        (record { steps = lone "a" [] ∷ []; order = [] })
      ≡ some x)
    × (x.run.steps ≡ s ∷ [])
    × Concluded x s
execute_ad_hoc-ends_example = execute_ad_hoc-ends world (λ a b. a) policy kept (lone "a" []) [] []
