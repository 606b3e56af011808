-- ===== src/Exec/AdHoc.antt =====
-- internal/exec/adhoc.go: a run of one step that is not of a canvas.
pub mod Limits
use ic.Prelude.{
  ℕ, zero, suc, ◌+◌, ◌-◌, ◌*◌, String, codes, Bool, true, false, not, ◌&&◌, ◌||◌, List, [], ◌∷◌,
  ◌++◌, Option, none, some, same, concat, any, length, ltb, leb, between, itoa, if◌then◌else◌,
}
use ic.Prelude.Int.{ℤ, pos, ltb_ℤ, ◌+ℤ◌}
use ic.Prelude.Dict.{lookup}
use ic.Platform.Float.{Float64}
use ic.Platform.Errors.{
  Code, DomainError, Result, ok, err, new_error, err_invalid, refuse, ◌>>=◌, ◌>>◌,
}
use ic.Provider.Errors.{CallError, domain, classify_transport}
use ic.Graph.Document.{Json, float, text, array, object, Items, nil, cons, Spec}
use ic.Graph.Ids.{valid_id}
use ic.Graph.Limits.{max_variants_per_node}
use ic.Graph.Validate.{valid_capability_string}
use ic.Exec.Cost.{wrap64, add64, mul64}
use ic.Exec.Plan.{Plan, PlanStep, ResolvedInput, Run, RunStatus, Step, StepKind, StepStatus}
use ic.Exec.Retry.{RetryPolicy}
use ic.Exec.World.{Action, save_run, World}
use ic.Exec.Attempts.{StepRun, run_step}
use ic.Exec.Collect.{text_field, fields_of}
use ic.Exec.Engine.{Executed, begun, finish_run, finish_trace}

abbrev pub max_ad_hoc_references : ℕ
max_ad_hoc_references = 7

abbrev pub min_variants_per_node : ℕ
min_variants_per_node = 1

abbrev pub ad_hoc_step_id : String → String
ad_hoc_step_id run_id = concat "step_" run_id

abbrev add_text : {F : Type 0} → Json F → List String → List String
add_text (text s) rest = if same s "" then rest else s ∷ rest
add_text _ rest = rest

unfoldable pub texts_of : {F : Type 0} → Items F → List String
texts_of nil = []
texts_of (cons item items) = add_text item (texts_of items)

abbrev pub string_slice : {F : Type 0} → Option (Json F) → List String
string_slice (some (array items)) = texts_of items
string_slice _ = []

-- The loop over a text of decimal digits, in 64-bit arithmetic.
unfoldable pub digits_from : ℤ → List ℕ → Option ℤ
digits_from n [] = some n
digits_from n (c ∷ cs) =
    let later = digits_from (add64 (mul64 n (pos 10)) (pos (c - 48))) cs in
    if between 48 57 c then later else none

-- The count of outputs, between the limits; 1 where none above 0 is asked for.
unfoldable pub clamp_count : Option ℤ → ℤ
clamp_count none = pos min_variants_per_node
clamp_count (some n) =
    if ltb_ℤ n (pos 1)
    then pos min_variants_per_node
    else if ltb_ℤ (pos max_variants_per_node) n
    then pos max_variants_per_node
    else n

abbrev pub reference_input : ℕ → String → ResolvedInput
reference_input i id = record {
  kind = "image";
  value = "";
  asset_id = id;
  label = concat "图片" (itoa (suc i));
  origin = record { node_id = ""; port_id = "" };
}

unfoldable pub reference_inputs : ℕ → List String → Result (List ResolvedInput)
reference_inputs i [] = ok []
reference_inputs i (id ∷ ids) =
    let rest = reference_inputs (suc i) ids in
    if not (valid_id id)
    then err (new_error 422 Code.invalid_request "参考图 assetId 不合法")
    else elim rest [ err e ↦ err e | ok inputs ↦ ok (reference_input i id ∷ inputs) ]

module _ {F : Type 0} ⦃fl : Float64 F⦄ where
  abbrev pub int_from_any : Option (Json F) → Option ℤ
  int_from_any (some (float x)) = some (fl.to_int x)
  int_from_any (some (text s)) = digits_from (pos 0) (codes s)
  int_from_any _ = none

  abbrev object_at : Option (Json F) → Spec F
  object_at (some (object fields)) = fields_of fields
  object_at _ = []

  abbrev pub capability_of : Spec F → String
  capability_of params =
      let c = text_field params "capability" in if same c "" then "image.generate" else c

  abbrev pub ad_hoc_step : Run F → List ResolvedInput → PlanStep F
  ad_hoc_step run inputs = record {
    id = ad_hoc_step_id run.id;
    node_id = "adhoc";
    kind = StepKind.generate;
    depends_on = [];
    capability = capability_of run.params;
    model = text_field run.params "model";
    provider_id = text_field run.params "providerId";
    credential_id = text_field run.params "credentialId";
    params = object_at (lookup "params" run.params);
    count = clamp_count (int_from_any (lookup "outputCount" run.params));
    inputs = inputs;
    prompt = text_field run.params "prompt";
    write_back = record { node_id = ""; port_id = "" };
  }

  unfoldable pub compile_ad_hoc : Run F → Result (Plan F)
  compile_ad_hoc run = do
    refuse (not (valid_capability_string (capability_of run.params)))
        (err_invalid (concat "unknown capability: " (capability_of run.params)))
    refuse (same (text_field run.params "prompt") "") (err_invalid "prompt is required")
    refuse (ltb max_ad_hoc_references (length (string_slice (lookup "references" run.params))))
        (new_error 422 Code.invalid_request "参考图数量超限")
    inputs ← reference_inputs 0 (string_slice (lookup "references" run.params))
    ok (record { steps = ad_hoc_step run inputs ∷ []; order = ad_hoc_step_id run.id ∷ [] })

  module _ (world : World F) where
    abbrev pub begun_step : PlanStep F → Step
    begun_step ps = record {
      id = ps.id;
      node_id = ps.node_id;
      kind = ps.kind;
      status = StepStatus.running;
      depends_on = [];
      attempts = [];
      outputs = [];
      text = "";
      error = none;
      started_at = world.now;
      finished_at = none;
    }

    -- The end of the run, once its step has run.
    unfoldable pub conclude_ad_hoc : Run F → StepRun F → Executed F
    conclude_ad_hoc run r =
        let done = record (begun world run) { steps = r.step ∷ [] } in
        let trace = (Action.save_run ∷ Action.save_run ∷ r.trace) ++ finish_trace world in
        elim (r.failure) [
          | none ↦ record {
            run = finish_run world done RunStatus.succeeded none;
            trace = trace;
            failure = none;
          }
          | some e ↦ record {
            run = finish_run world done RunStatus.failed (some (classify_transport e));
            trace = trace;
            failure = some e;
          }
        ]

    unfoldable pub execute_ad_hoc :
        (F → F → F) → RetryPolicy F → Run F → Plan F → Option (Executed F)
    execute_ad_hoc pow policy run plan = elim (plan.steps) [
      | [] ↦
          some (record {
            run = run;
            trace = [];
            failure = some (domain (err_invalid "plan is empty"));
          })
      | ps ∷ rest ↦ elim (run_step world pow policy (begun world run) (begun_step ps) ps) [
        | none ↦ none
        | some r ↦ some (conclude_ad_hoc run r)
      ]
    ]

    unfoldable pub mark_failed : Run F → CallError → Run F
    mark_failed run e = finish_run world run RunStatus.failed (some (classify_transport e))
