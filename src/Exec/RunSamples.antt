-- ===== src/Exec/RunSamples.antt =====
-- A canvas with a prompt and two generations in a row, a world to run it in, and a request for a run.
use ic.Prelude.{String, true, false, List, [], ◌∷◌, Option, none, some, map, if◌then◌else◌, ◌==◌}
use ic.Prelude.Int.{pos}
use ic.Platform.Sample.{Sample, fin, sample_float}
use ic.Graph.Document.{Document, Node, NodeResult, text}
use ic.Graph.Samples.{fresh_node, edge_between, blank}
use ic.Provider.Errors.{upstream, of_class, ErrorClass}
use ic.Exec.Plan.{Plan, PlanStep, Run, RunStatus, Step, StepStatus, Response, no_usage}
use ic.Exec.Retry.{RetryPolicy}
use ic.Exec.World.{Credential, done, failed, World}
use ic.Exec.Compile.{compile, compiled, Compiled}
use ic.Exec.Engine.{Executed}
use ic.Exec.RunStore.{MemoryStore, RunRequest, new_memory_store, with_run, new_run}
use ic.Exec.Collect.{bare_step}
use ic.Exec.Engine.{new_step}

abbrev pub generation : String → Option NodeResult → Node Sample
generation id result = record (fresh_node id "generation") {
  spec = ("capability", text "text.generate") ∷ ("promptTemplate", text "go") ∷ [];
  result = result;
}

abbrev pub earlier : NodeResult
earlier = record {
  variants =
      record { asset_id = ""; text = "old"; kind = "text"; status = "succeeded"; error = "" } ∷ [];
  primary = pos 0;
  run_id = "r0";
  step_id = "st_z";
}

-- The generation "z" feeds the generation "a".
abbrev pub canvas : Document Sample
canvas = record blank {
  nodes =
      ("p", record (fresh_node "p" "prompt") { spec = ("text", text "a cat") ∷ [] })
      ∷ ("z", generation "z" (some earlier))
      ∷ ("a", generation "a" none)
      ∷ [];
  edges = ("e1", edge_between "e1" "p" "z") ∷ ("e2", edge_between "e2" "z" "a") ∷ [];
}

abbrev pub policy : RetryPolicy Sample
policy = record {
  max_attempts = pos 3;
  base_backoff = pos 1000;
  max_backoff = pos 30000;
  jitter = fin (pos 0);
}

abbrev pub credential : Credential
credential = record { id = "c"; provider_id = "openai"; source_provider_id = "" }

abbrev pub answer : Response
answer = record { assets = []; text = "done"; usage = no_usage; remote_task = none }

-- The first attempt of a step is turned away, the second is answered.
abbrev pub world : World Sample
world = record {
  resolve = λ _ _ _. some credential;
  invoke = λ _ _ n.
      if n == 1
      then failed
          (upstream (record (of_class ErrorClass.rate_limited "slow_down") { retry_after = pos 5 }))
      else done answer;
  pricing = λ _ _. record {
    text_input_per_m_tok = pos 0;
    text_output_per_m_tok = pos 0;
    image_per_unit = pos 0;
    video_per_second = pos 0;
    audio_per_second = pos 0;
  };
  read_asset = λ _ id. done id;
  store_bytes = λ _ b _. done b.name;
  store_url = λ _ b _. done b.name;
  has_canvas = true;
  write_back = λ _ _ _. none;
  roll = λ _ _. fin (pos 0);
  ends_waiting = λ _ _. false;
  ended_at_start = false;
  ended_after = λ _. false;
  first_save = none;
  now = 7;
}

abbrev pub fresh_run : Run Sample
fresh_run = record {
  id = "r1";
  workspace_id = "w";
  canvas_id = "cv";
  project_id = "p";
  trigger = "manual";
  status = RunStatus.pending;
  target_nodes = "a" ∷ [];
  params = [];
  steps = [];
  usage = no_usage;
  error = none;
  actor_id = "ann";
  idempotency_key = "k";
  started_at = 1;
  finished_at = none;
  ad_hoc = false;
}

abbrev pub plan_in : Compiled Sample → Plan Sample
plan_in (compiled p) = p
plan_in _ = record { steps = []; order = [] }

abbrev pub the_plan : Plan Sample
the_plan = plan_in (compile none canvas ("a" ∷ []))

abbrev pub statuses : Option (Executed Sample) → List StepStatus
statuses none = []
statuses (some x) = map (λ (s : Step). s.status) x.run.steps

abbrev pub lone : String → List String → PlanStep Sample
lone id deps = record (bare_step (fresh_node id "run")) { depends_on = deps }

abbrev pub one_step : Step
one_step = new_step world (lone "a" [])

abbrev pub request : RunRequest Sample
request = record {
  workspace_id = "w";
  canvas_id = "cv";
  project_id = "p";
  target_nodes = "a" ∷ [];
  trigger = "";
  actor_id = "ann";
  params = ("prompt", text "a cat") ∷ [];
  idempotency_key = "k1";
  ad_hoc = true;
}

abbrev pub kept : Run Sample
kept = new_run request "r1" 7

abbrev pub store : MemoryStore Sample
store = with_run kept new_memory_store
