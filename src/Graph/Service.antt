-- ===== src/Graph/Service.antt =====
-- internal/graph/service.go, `AppendOps`: the one way to write to a canvas. The lock makes the whole
-- call one step; the identifiers that are checked before it are the store's keys.
pub mod Commit
mod Examples
use ic.Prelude.{
  ℕ, ◌+◌, ◌-◌, ◌≡◌, refl, String, Bool, true, false, ◌||◌, not, List, [], ◌∷◌, Option, none, some,
  same, ltb, ◌==◌, length, map, if◌then◌else◌,
}
use ic.Prelude.Int.{ℤ, pos, negsuc}
use ic.Platform.Errors.{
  Result, ok, err, new_error, err_not_found, Code, DomainError, refuse, ◌>>=◌, ◌>>◌,
}
use ic.Platform.Float.{Float64}
use ic.Graph.Document.{Document}
use ic.Graph.Ids.{valid_id}
use ic.Graph.Schema.{PluginSchemas}
use ic.Graph.Operation.{RawOp}
use ic.Graph.Apply.Config.{is_empty}
use ic.Graph.Apply.Dispatch.{apply, ApplyResult}
use ic.Graph.Store.{Record, MemoryStore, get_document, store_append, list_ops_since_version}
use ic.Graph.Rebase.{rebaseable}

pub record Event (F : Type 0) : Type 0 where
  pub canvas_id : String
  pub seq : ℕ
  pub version : ℕ
  pub actor_id : String
  pub payload : RawOp F
  pub at : ℕ

-- What a call answers, the store that it leaves and the events that it publishes, in order.
pub record Appended (F : Type 0) : Type 0 where
  pub result : ApplyResult F
  pub doc : Document F
  pub store : MemoryStore F
  pub events : List (Event F)

abbrev conflict : String → DomainError
conflict message = new_error 409 Code.conflict message

-- A base version is a natural number up to the server's version.
unfoldable pub check_base : ℤ → ℕ → Result ℕ
check_base (negsuc n) current = err (conflict "base version is ahead of server version")
check_base (pos n) current =
    if ltb current n then err (conflict "base version is ahead of server version") else ok n

module _ {F : Type 0} where
  abbrev pub event_of : String → Record F → Event F
  event_of actor r = record {
    canvas_id = r.canvas_id;
    seq = r.seq;
    version = r.version;
    actor_id = actor;
    payload = r.op;
    at = r.created_at;
  }

  -- The operations in flight since `base`, of which the store lists so many at most.
  abbrev pub inflight : MemoryStore F → String → ℕ → ℕ → List (Record F)
  inflight s canvas_id base version = list_ops_since_version s canvas_id base (version - base + 16)

  -- The number of operations that a late batch is rebased over.
  unfoldable pub check_rebase : MemoryStore F → String → ℕ → ℕ → List (RawOp F) → Result ℕ
  check_rebase s canvas_id base version raws =
      if base == version
      then ok 0
      else if rebaseable raws (inflight s canvas_id base version)
      then ok (length (inflight s canvas_id base version))
      else err (conflict "concurrent modification on the same field")

-- What `AppendOps` returns and publishes once the store has the batch.
abbrev pub answer :
    {F : Type 0}
    → ApplyResult F × Document F
    → ℕ × List (Record F) × MemoryStore F
    → ℕ
    → String
    → Appended F
answer applied stored rebased actor = record {
  result = record (applied.0) { version = stored.0; rebased = ltb 0 rebased };
  doc = record (applied.1) { version = stored.0 };
  store = stored.2;
  events = map (event_of actor) stored.1;
}

module _ {F : Type 0} ⦃fl : Float64 F⦄ (plugins : PluginSchemas) where
  unfoldable pub commit :
      MemoryStore F → String → Document F → ℕ → List (RawOp F) → String → ℕ → Result (Appended F)
  commit s canvas_id current rebased raws actor now = do
    applied ← apply plugins current raws actor now
    stored ← store_append s canvas_id current.version applied.1 raws actor now
    ok (answer applied stored rebased actor)

  -- A batch that is not empty, against the canvas as it stands.
  unfoldable pub submit :
      MemoryStore F → String → Document F → ℤ → List (RawOp F) → String → ℕ → Result (Appended F)
  submit s canvas_id current base_version raws actor now = do
    base ← check_base base_version current.version
    rebased ← check_rebase s canvas_id base current.version raws
    commit s canvas_id current rebased raws actor now

  abbrev pub unchanged : MemoryStore F → Document F → Appended F
  unchanged s current = record {
    result = record { version = current.version; applied = 0; inverse = []; rebased = false };
    doc = current;
    store = s;
    events = [];
  }

  unfoldable pub append_ops :
      MemoryStore F → String → ℤ → List (RawOp F) → String → ℕ → Result (Appended F)
  append_ops s canvas_id base_version raws actor now = do
    refuse (not (valid_id canvas_id)) (err_not_found "canvas")
    refuse (same actor "") (new_error 403 Code.forbidden "actor is required")
    current ← get_document s canvas_id
    (if is_empty raws
        then ok (unchanged s current)
        else submit s canvas_id current base_version raws actor now)
