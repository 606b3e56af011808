-- ===== src/Exec/Attempts.antt =====
-- internal/exec/engine.go, `runStep`: one step, with its attempts at the upstream.
pub mod Count
pub mod Unfinished
use ic.Prelude.{
  ℕ, zero, suc, ◌+◌, String, Bool, true, false, not, ◌&&◌, ◌||◌, List, [], ◌∷◌, ◌++◌, Option, none,
  some, same, concat, map, if◌then◌else◌, itoa, has_prefix,
}
use ic.Prelude.Int.{ℤ, pos, pos_part, ltb_ℤ}
use ic.Platform.Float.{Float64}
use ic.Platform.Errors.{Code, DomainError}
use ic.Provider.Errors.{
  CallError, upstream, domain, ended, run_canceled, other, ProviderError, ErrorClass, of_class,
  code_text, classify_transport,
}
use ic.Graph.Document.{NodeResult, ResultVariant}
use ic.Exec.Cost.{apply_cost}
use ic.Exec.Plan.{
  Attempt, AssetRef, OutputAsset, PlanStep, ResolvedInput, Response, Run, Step, StepStatus,
  no_usage,
}
use ic.Exec.Retry.{RetryPolicy, next}
use ic.Exec.World.{
  Action, save_step, save_attempt, call, emit, wait, write_canvas, Blob, Credential, Outcome, done,
  failed, Request, World,
}

unfoldable pub to_provider_error : CallError → ProviderError
to_provider_error (upstream e) = e
to_provider_error (domain e) = elim (e.code) [
  | Code.internal ↦ classify_transport (domain e)
  | c ↦ of_class ErrorClass.permanent (code_text c)
]
to_provider_error e = classify_transport e

abbrev pub first_non_empty : String → String → String
first_non_empty a b = if same a "" then b else a

abbrev pub derive_request_id : String → String → String
derive_request_id run_id step_id = concat run_id (concat ":" step_id)

-- What is left of a step's run: the step, what was done, and the error if it failed.
pub record StepRun (F : Type 0) : Type 0 where
  pub step : Step
  pub trace : List (Action F)
  pub failure : Option CallError

abbrev pub after : {F : Type 0} → List (Action F) → StepRun F → StepRun F
after trace r = record r { trace = trace ++ r.trace }

module _ {F : Type 0} ⦃fl : Float64 F⦄ (world : World F) where
  unfoldable pub materialize_inputs : String → List ResolvedInput → Outcome (List ResolvedInput)
  materialize_inputs ws_id [] = done []
  materialize_inputs ws_id (i ∷ rest) =
      let later = materialize_inputs ws_id rest in
      if same i.asset_id "" || same i.kind "text" || has_prefix i.asset_id "data:"
      then elim later [ failed e ↦ failed e | done out ↦ done (i ∷ out) ]
      else elim (world.read_asset ws_id i.asset_id) [
        | failed e ↦ failed e
        | done uri ↦ elim later [
          | failed e ↦ failed e
          | done out ↦ done (record i { asset_id = uri } ∷ out)
        ]
      ]

  -- An asset without bytes and without an address is passed over.
  abbrev store_asset : String → Blob → AssetRef → Option (Outcome String)
  store_asset ws_id blob ref = elim (ref.bytes) [
    | b ∷ bs ↦ some (world.store_bytes ws_id blob (b ∷ bs))
    | [] ↦ if same ref.url "" then none else some (world.store_url ws_id blob ref.url)
  ]

  unfoldable pub persist_outputs : Run F → Step → ℕ → List AssetRef → Outcome (List OutputAsset)
  persist_outputs run step i [] = done []
  persist_outputs run step i (ref ∷ refs) =
      let blob : Blob = record {
        kind = ref.kind;
        mime = ref.mime;
        name = concat step.node_id (concat "-" (itoa (i + 1)));
        run_id = run.id;
        step_id = step.id;
      } in
      let rest = persist_outputs run step (i + 1) refs in
      elim (store_asset run.workspace_id blob ref) [
        | none ↦ rest
        | some (failed e) ↦ failed e
        | some (done id) ↦ elim rest [
          | failed e ↦ failed e
          | done out ↦ done (record { asset_id = id; kind = ref.kind; mime = ref.mime } ∷ out)
        ]
      ]

  abbrev pub attempt_of : Credential → Request F → ℕ → Attempt
  attempt_of cred req n = record {
    index = n;
    provider_id = first_non_empty cred.source_provider_id cred.provider_id;
    protocol_id = cred.provider_id;
    model_id = req.model;
    request_id = req.request_id;
    status = StepStatus.pending;
    http_status = 0;
    error = none;
    usage = no_usage;
    remote_task = none;
  }

  abbrev pub failed_attempt : Credential → Request F → ℕ → ProviderError → Attempt
  failed_attempt cred req n e = record (attempt_of cred req n) {
    status = StepStatus.failed;
    error = some e;
    http_status = e.http_status;
  }

  abbrev pub variants_of : List OutputAsset → String → List ResultVariant
  variants_of [] text =
      if same text ""
      then []
      else record { asset_id = ""; text = text; kind = "text"; status = "succeeded"; error = "" }
        ∷ []
  variants_of (o ∷ os) text =
      map
        (λ (o : OutputAsset). record {
          asset_id = o.asset_id;
          text = "";
          kind = o.kind;
          status = "succeeded";
          error = "";
        })
        (o ∷ os)

  abbrev pub result_of : Run F → Step → List OutputAsset → String → NodeResult
  result_of run step outputs text = record {
    variants = variants_of outputs text;
    primary = pos 0;
    run_id = run.id;
    step_id = step.id;
  }

  -- What the canvas is told of a result.
  unfoldable pub write_result : Run F → Step → List OutputAsset → String → List (Action F)
  write_result run step outputs text =
      let result = result_of run step outputs text in
      if world.has_canvas && not run.ad_hoc
      then write_canvas run.canvas_id step.node_id result "succeeded"
        ∷ (elim (world.write_back run.canvas_id step.node_id result) [
          | none ↦ []
          | some e ↦ emit step.id "step.writeback_failed" ∷ []
        ])
      else []

  -- The upstream has answered: the assets are stored, the attempt is metered and the canvas is told.
  unfoldable pub complete : Run F → Credential → Request F → ℕ → Step → Response → StepRun F
  complete run cred req n step res = elim (persist_outputs run step 0 res.assets) [
    | failed e ↦ record { step = step; trace = []; failure = some e }
    | done outputs ↦
        let usage =
          apply_cost
            (world.pricing (first_non_empty cred.source_provider_id cred.provider_id) req.model)
            res.usage in
        let att : Attempt = record (attempt_of cred req n) {
          status = StepStatus.succeeded;
          usage = usage;
          remote_task = res.remote_task;
        } in
        let step' : Step = record step {
          attempts = step.attempts ++ att ∷ [];
          outputs = step.outputs ++ outputs;
          text = res.text;
          status = StepStatus.succeeded;
          finished_at = some world.now;
        } in
        record {
          step = step';
          trace =
              (save_attempt step.id att ∷ save_step step' ∷ write_result run step outputs res.text)
              ++ emit step.id "step.succeeded" ∷ [];
          failure = none;
        }
  ]

  abbrev pub tried : Credential → Request F → ℕ → ProviderError → Step → Step
  tried cred req n e step = record step {
    attempts = step.attempts ++ failed_attempt cred req n e ∷ [];
  }

  abbrev pub again : Credential → Request F → ℕ → ProviderError → Step → Step
  again cred req n e step = record (tried cred req n e step) { status = StepStatus.retrying }

  abbrev pub made : Credential → Request F → ℕ → ProviderError → Step → List (Action F)
  made cred req n e step = call req n ∷ save_attempt step.id (failed_attempt cred req n e) ∷ []

  abbrev pub waited : Credential → Request F → ℕ → ProviderError → ℤ → Step → List (Action F)
  waited cred req n e backoff step =
      made cred req n e step
      ++ save_step (again cred req n e step) ∷ emit step.id "step.retrying" ∷ wait backoff ∷ []

  module _ (pow : F → F → F) (policy : RetryPolicy F) (run : Run F) (cred : Credential)
      (req : Request F) where
    abbrev pub backoff_of : ℕ → Step → ProviderError → ℤ
    backoff_of n step e = next pow policy (world.roll step.id n) n (some e)

    -- The loop over the attempts; `none` where the fuel runs out. `n` attempts are made before.
    unfoldable pub attempt_loop : ℕ → ℕ → Step → Option (StepRun F)
    attempt_loop zero n step = none
    attempt_loop (suc fuel) n step = elim (world.invoke cred req (n + 1)) [
      | done res ↦ some (after (call req (n + 1) ∷ []) (complete run cred req (n + 1) step res))
      | failed ierr ↦
          let e = to_provider_error ierr in
          let backoff = backoff_of (n + 1) step e in
          elim (ltb_ℤ (pos 0) backoff) [
            | false ↦ some (record {
              step = tried cred req (n + 1) e step;
              trace = made cred req (n + 1) e step;
              failure = some (upstream e);
            })
            | true ↦ elim (world.ends_waiting step.id (n + 1)) [
              | true ↦ some (record {
                step = again cred req (n + 1) e step;
                trace = waited cred req (n + 1) e backoff step;
                failure = some run_canceled;
              })
              | false ↦ elim (attempt_loop fuel (n + 1) (again cred req (n + 1) e step)) [
                | none ↦ none
                | some r ↦ some (after (waited cred req (n + 1) e backoff step) r)
              ]
            ]
          ]
    ]

  module _ (pow : F → F → F) (policy : RetryPolicy F) where
    abbrev pub started : Step → Step
    started step = record step { status = StepStatus.running }

    abbrev pub start_trace : Step → List (Action F)
    start_trace step = save_step (started step) ∷ emit step.id "step.started" ∷ []

    -- There are at most `max_attempts` attempts, and at least one.
    abbrev pub attempt_fuel : ℕ
    attempt_fuel = suc (pos_part policy.max_attempts)

    abbrev pub request_of : Run F → Step → PlanStep F → List ResolvedInput → Request F
    request_of run step ps inputs = record {
      capability = ps.capability;
      model = ps.model;
      prompt = ps.prompt;
      inputs = inputs;
      params = ps.params;
      count = ps.count;
      request_id = derive_request_id run.id step.id;
    }

    unfoldable pub run_step : Run F → Step → PlanStep F → Option (StepRun F)
    run_step run step ps = elim (world.resolve ps.capability ps.provider_id ps.credential_id) [
      | none ↦ some (record {
        step = record step { status = StepStatus.failed };
        trace = start_trace step;
        failure = some (upstream (of_class ErrorClass.permanent "invalid_request"));
      })
      | some cred ↦ elim (materialize_inputs run.workspace_id ps.inputs) [
        | failed e ↦
            some (record { step = started step; trace = start_trace step; failure = some e })
        | done inputs ↦
            elim (attempt_loop pow policy run cred (request_of run step ps inputs) attempt_fuel 0
              (started step)) [ none ↦ none | some r ↦ some (after (start_trace step) r) ]
      ]
    ]
