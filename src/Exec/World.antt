-- ===== src/Exec/World.antt =====
-- internal/exec/deps.go and the interfaces of internal/exec/engine.go: what a run meets outside of the
-- engine. Each call is a function of what the engine hands over, and of a count where the engine may
-- make the same call again. All clock readings of a run are one time.
use ic.Prelude.{ℕ, String, Bool, List, Option}
use ic.Prelude.Int.{ℤ}
use ic.Provider.Errors.{CallError}
use ic.Graph.Document.{Spec, NodeResult}
use ic.Exec.Cost.{Pricing}
use ic.Exec.Plan.{Attempt, Step, Response, ResolvedInput}

pub record Credential : Type 0 where
  pub id : String
  pub provider_id : String
  pub source_provider_id : String

pub record Request (F : Type 0) : Type 0 where
  pub capability : String
  pub model : String
  pub prompt : String
  pub inputs : List ResolvedInput
  pub params : Spec F
  pub count : ℤ
  pub request_id : String

-- A Go result `(A, error)`, with the errors that a call can end in.
pub data Outcome (A : Type 0) : Type 0 where
  done : A → Outcome A
  failed : CallError → Outcome A

pub record Blob : Type 0 where
  pub kind : String
  pub mime : String
  pub name : String
  pub run_id : String
  pub step_id : String

pub record World (F : Type 0) : Type 0 where
  -- AdapterRegistry.Resolve, on a capability, a provider and a credential.
  pub resolve : String → String → String → Option Credential
  -- Adapter.Invoke; the count is the number of the attempt.
  pub invoke : Credential → Request F → ℕ → Outcome Response
  pub pricing : String → String → Pricing
  -- AssetReader, with its content as a data URI; there may be none.
  pub read_asset : String → String → Outcome String
  -- BlobWriter.StoreBytes and StoreURL, of a workspace.
  pub store_bytes : String → Blob → List ℕ → Outcome String
  pub store_url : String → Blob → String → Outcome String
  -- Whether there is a CanvasWriter, and whether its WriteBack returns an error.
  pub has_canvas : Bool
  pub write_back : String → String → NodeResult → Option CallError
  -- rand.Float64, at an attempt of a step.
  pub roll : String → ℕ → F
  -- Whether the context ends during the wait after an attempt of a step.
  pub ends_waiting : String → ℕ → Bool
  -- Whether the context has ended before the first step, and after a step has failed.
  pub ended_at_start : Bool
  pub ended_after : String → Bool
  -- The error of the first SaveRun; the errors of later saves are dropped by the code.
  pub first_save : Option CallError
  pub now : ℕ

-- What the engine does to the world, in order.
pub data Action (F : Type 0) : Type 0 where
  save_step : Step → Action F
  save_attempt : String → Attempt → Action F
  call : Request F → ℕ → Action F
  emit : String → String → Action F
  wait : ℤ → Action F
  write_canvas : String → String → NodeResult → String → Action F
  save_run : Action F
