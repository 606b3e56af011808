-- ===== src/Exec/RunStore.antt =====
-- internal/exec/memstore.go, and `Create` of internal/exec/engine.go: the runs that are kept, and how a
-- run begins. A run is stored and given out as a copy, which a value is.
pub mod Once
pub mod Listing
use ic.Prelude.{
  ℕ, zero, suc, ◌+◌, String, Bool, true, false, not, ◌&&◌, ◌||◌, List, [], ◌∷◌, ◌++◌, Option, none,
  some, same, concat, any, length, ltb, leb, ◌==◌, if◌then◌else◌,
}
use ic.Prelude.Int.{ℤ, pos, pos_part, ltb_ℤ}
use ic.Prelude.Dict.{lookup, insert, has, values}
use ic.Platform.Errors.{Code, DomainError, Result, ok, err, new_error, err_not_found, err_invalid}
use ic.Graph.Document.{Spec}
use ic.Exec.Plan.{Attempt, Run, RunStatus, Step, StepStatus, no_usage}
use ic.Exec.Attempts.{first_non_empty}

pub record MemoryStore (F : Type 0) : Type 0 where
  pub runs : List (String × Run F)
  pub by_idem : List (String × String)
  pub attempts : List (String × List Attempt)
  pub order : List String

abbrev pub idem_key : String → String → String
idem_key ws_id key = concat ws_id (concat "|" key)

-- Whether the key of a run belongs to another run.
unfoldable pub is_taken : List (String × String) → String → String → Bool
is_taken by_idem key run_id = elim (lookup key by_idem) [
  | none ↦ false
  | some id ↦ not (same id run_id)
]

unfoldable pub replace_step : Step → List Step → List Step
replace_step step [] = step ∷ []
replace_step step (s ∷ steps) =
    let rest = replace_step step steps in if same s.id step.id then step ∷ steps else s ∷ rest

unfoldable pub replace_attempt : Attempt → List Attempt → List Attempt
replace_attempt a [] = a ∷ []
replace_attempt a (b ∷ rest) =
    let later = replace_attempt a rest in
    if same b.request_id a.request_id && b.index == a.index then a ∷ rest else b ∷ later

abbrev pub attempts_at : String → List (String × List Attempt) → List Attempt
attempts_at key m = elim (lookup key m) [ none ↦ [] | some l ↦ l ]

abbrev is_unfinished : StepStatus → Bool
is_unfinished StepStatus.running = true
is_unfinished StepStatus.retrying = true
is_unfinished _ = false

abbrev is_running : RunStatus → Bool
is_running RunStatus.running = true
is_running _ = false

-- The limit of a page: 20 where the one asked for is not from 1 to 200.
unfoldable pub page_limit : ℤ → ℕ
page_limit limit = if ltb_ℤ limit (pos 1) || ltb_ℤ (pos 200) limit then 20 else pos_part limit

unfoldable pub newest_first : List String → List String
newest_first [] = []
newest_first (id ∷ ids) = newest_first ids ++ id ∷ []

module _ {F : Type 0} where
  abbrev pub new_memory_store : MemoryStore F
  new_memory_store = record { runs = []; by_idem = []; attempts = []; order = [] }

  abbrev enter_key : Run F → List (String × String) → List (String × String)
  enter_key run by_idem =
      if same run.idempotency_key ""
      then by_idem
      else insert (idem_key run.workspace_id run.idempotency_key) run.id by_idem

  abbrev pub with_run : Run F → MemoryStore F → MemoryStore F
  with_run run s = record s {
    runs = insert run.id run s.runs;
    by_idem = enter_key run s.by_idem;
    order = if has run.id s.runs then s.order else s.order ++ run.id ∷ [];
  }

  unfoldable pub save_run : Run F → MemoryStore F → Result (MemoryStore F)
  save_run run s =
      if not (same run.idempotency_key "")
        && is_taken s.by_idem (idem_key run.workspace_id run.idempotency_key) run.id
      then err (new_error 409 Code.conflict "duplicate idempotency key")
      else ok (with_run run s)

  unfoldable pub load_run : String → MemoryStore F → Result (Run F)
  load_run run_id s = elim (lookup run_id s.runs) [
    | none ↦ err (err_not_found "run")
    | some r ↦ ok r
  ]

  -- The run may be nil, where the key leads to no run.
  unfoldable pub find_by_idempotency_key : String → String → MemoryStore F → Result (Option (Run F))
  find_by_idempotency_key ws_id key s = elim (lookup (idem_key ws_id key) s.by_idem) [
    | none ↦ err (err_not_found "run")
    | some id ↦ ok (lookup id s.runs)
  ]

  abbrev pub is_listed : String → String → Run F → Bool
  is_listed ws_id canvas_id r =
      (same ws_id "" || same r.workspace_id ws_id)
      && (same canvas_id "" || same r.canvas_id canvas_id)

  -- The loop of ListRuns, over the order with the newest first.
  unfoldable pub pick_runs : String → String → MemoryStore F → ℕ → List String → List (Run F)
  pick_runs ws_id canvas_id s limit [] = []
  pick_runs ws_id canvas_id s zero (id ∷ ids) = []
  pick_runs ws_id canvas_id s (suc limit) (id ∷ ids) =
      let others = pick_runs ws_id canvas_id s (suc limit) ids in
      elim (lookup id s.runs) [
        | none ↦ others
        | some r ↦
            let with_it = r ∷ pick_runs ws_id canvas_id s limit ids in
            if is_listed ws_id canvas_id r then with_it else others
      ]

  unfoldable pub list_runs : String → String → ℤ → MemoryStore F → List (Run F)
  list_runs ws_id canvas_id limit s =
      pick_runs ws_id canvas_id s (page_limit limit) (newest_first s.order)

  unfoldable pub save_step : String → Step → MemoryStore F → Result (MemoryStore F)
  save_step run_id step s = elim (lookup run_id s.runs) [
    | none ↦ err (err_not_found "run")
    | some r ↦
        ok (record s {
          runs = insert run_id (record r { steps = replace_step step r.steps }) s.runs;
        })
  ]

  unfoldable pub save_attempt : String → String → Attempt → MemoryStore F → MemoryStore F
  save_attempt run_id step_id a s =
      let key = idem_key run_id step_id in
      record s { attempts = insert key (replace_attempt a (attempts_at key s.attempts)) s.attempts }

  unfoldable pub attempts_of : String → String → MemoryStore F → List Attempt
  attempts_of run_id step_id s = attempts_at (idem_key run_id step_id) s.attempts

  unfoldable pub resumable : List (Run F) → List String
  resumable [] = []
  resumable (r ∷ rs) =
      let rest = resumable rs in
      if is_running r.status && any (λ (s : Step). is_unfinished s.status) r.steps
      then r.id ∷ rest
      else rest

  unfoldable pub list_resumable_runs : MemoryStore F → List String
  list_resumable_runs s = resumable (values s.runs)

pub record RunRequest (F : Type 0) : Type 0 where
  pub workspace_id : String
  pub canvas_id : String
  pub project_id : String
  pub target_nodes : List String
  pub trigger : String
  pub actor_id : String
  pub params : Spec F
  pub idempotency_key : String
  pub ad_hoc : Bool

module _ {F : Type 0} where
  -- The run that the key of a request leads to.
  unfoldable pub existing_run : RunRequest F → MemoryStore F → Option (Run F)
  existing_run req s =
      if same req.idempotency_key ""
      then none
      else elim (find_by_idempotency_key req.workspace_id req.idempotency_key s) [
        | err e ↦ none
        | ok r ↦ r
      ]

  -- `id` is what the generator of ids gives, and `now` what the clock says.
  unfoldable pub new_run : RunRequest F → String → ℕ → Run F
  new_run req id now = record {
    id = id;
    workspace_id = req.workspace_id;
    canvas_id = req.canvas_id;
    project_id = req.project_id;
    trigger = first_non_empty req.trigger "manual";
    status = RunStatus.pending;
    target_nodes = req.target_nodes;
    params = req.params;
    steps = [];
    usage = no_usage;
    error = none;
    actor_id = req.actor_id;
    idempotency_key = req.idempotency_key;
    started_at = now;
    finished_at = none;
    ad_hoc = req.ad_hoc;
  }

  unfoldable pub create : RunRequest F → String → ℕ → MemoryStore F → Result (Run F × MemoryStore F)
  create req id now s =
      if same req.workspace_id ""
      then err (err_invalid "workspaceId is required")
      else elim (existing_run req s) [
        | some r ↦ ok (r, s)
        | none ↦ elim (save_run (new_run req id now) s) [
          | ok s' ↦ ok (new_run req id now, s')
          | err e ↦ elim (existing_run req s) [ some r ↦ ok (r, s) | none ↦ err e ]
        ]
      ]
