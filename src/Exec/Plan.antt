-- ===== src/Exec/Plan.antt =====
-- internal/exec/plan.go, with the requests and answers of internal/provider/types.go: plans, runs,
-- steps and attempts. A pointer to a time that may be nil is an `Option`.
use ic.Prelude.{ℕ, suc, String, Bool, true, false, List, [], ◌∷◌, Option, length, if◌then◌else◌}
use ic.Prelude.Int.{ℤ, pos}
use ic.Platform.Float.{Float64, ◌/f◌}
use ic.Provider.Errors.{ProviderError}
use ic.Graph.Document.{Spec}
use ic.Exec.Cost.{Usage, add_usage}

pub data StepKind : Type 0 where
  generate transform fetch agent : StepKind

pub data RunStatus : Type 0 where
  pending running succeeded failed canceled partial : RunStatus

pub data StepStatus : Type 0 where
  pending ready running retrying succeeded failed skipped canceled : StepStatus

unfoldable pub terminal : StepStatus → Bool
terminal StepStatus.succeeded = true
terminal StepStatus.failed = true
terminal StepStatus.skipped = true
terminal StepStatus.canceled = true
terminal _ = false

pub record Origin : Type 0 where
  pub node_id : String
  pub port_id : String

pub record ResolvedInput : Type 0 where
  pub kind : String
  pub value : String
  pub asset_id : String
  pub label : String
  pub origin : Origin

pub record RemoteTask : Type 0 where
  pub id : String
  pub provider : String
  pub status : String
  pub progress : ℤ

-- The content is given by its bytes if there are any, and by an address otherwise.
pub record AssetRef : Type 0 where
  pub kind : String
  pub bytes : List ℕ
  pub mime : String
  pub url : String

pub record Response : Type 0 where
  pub assets : List AssetRef
  pub text : String
  pub usage : Usage
  pub remote_task : Option RemoteTask

pub record WriteBack : Type 0 where
  pub node_id : String
  pub port_id : String

pub record PlanStep (F : Type 0) : Type 0 where
  pub id : String
  pub node_id : String
  pub kind : StepKind
  pub depends_on : List String
  pub capability : String
  pub model : String
  pub provider_id : String
  pub credential_id : String
  pub params : Spec F
  pub count : ℤ
  pub inputs : List ResolvedInput
  pub prompt : String
  pub write_back : WriteBack

pub record Plan (F : Type 0) : Type 0 where
  pub steps : List (PlanStep F)
  pub order : List String

pub record Attempt : Type 0 where
  pub index : ℕ
  pub provider_id : String
  pub protocol_id : String
  pub model_id : String
  pub request_id : String
  pub status : StepStatus
  pub http_status : ℕ
  pub error : Option ProviderError
  pub usage : Usage
  pub remote_task : Option RemoteTask

pub record OutputAsset : Type 0 where
  pub asset_id : String
  pub kind : String
  pub mime : String

pub record Step : Type 0 where
  pub id : String
  pub node_id : String
  pub kind : StepKind
  pub status : StepStatus
  pub depends_on : List String
  pub attempts : List Attempt
  pub outputs : List OutputAsset
  pub text : String
  pub error : Option ProviderError
  pub started_at : ℕ
  pub finished_at : Option ℕ

pub record Run (F : Type 0) : Type 0 where
  pub id : String
  pub workspace_id : String
  pub canvas_id : String
  pub project_id : String
  pub trigger : String
  pub status : RunStatus
  pub target_nodes : List String
  pub params : Spec F
  pub steps : List Step
  pub usage : Usage
  pub error : Option ProviderError
  pub actor_id : String
  pub idempotency_key : String
  pub started_at : ℕ
  pub finished_at : Option ℕ
  pub ad_hoc : Bool

abbrev pub no_usage : Usage
no_usage = record {
  text_tokens_in = pos 0;
  text_tokens_out = pos 0;
  images = pos 0;
  video_millis = pos 0;
  audio_millis = pos 0;
  cost_micros = pos 0;
}

unfoldable pub add_attempts : Usage → List Attempt → Usage
add_attempts u [] = u
add_attempts u (a ∷ rest) = add_attempts (add_usage u a.usage) rest

unfoldable pub add_steps : Usage → List Step → Usage
add_steps u [] = u
add_steps u (s ∷ rest) = add_steps (add_attempts u s.attempts) rest

unfoldable pub recompute_usage : {F : Type 0} → Run F → Run F
recompute_usage r = record r { usage = add_steps no_usage r.steps }

unfoldable pub done_count : List Step → ℕ
done_count [] = 0
done_count (s ∷ rest) = if terminal s.status then suc (done_count rest) else done_count rest

unfoldable pub progress : {F : Type 0} → ⦃fl : Float64 F⦄ → Run F → F
progress ⦃fl = fl⦄ r = elim (r.steps) [
  | [] ↦ fl.num (pos 0)
  | s ∷ rest ↦ fl.num (pos (done_count r.steps)) /f fl.num (pos (length r.steps))
]
