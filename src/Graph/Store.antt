-- ===== src/Graph/Store.antt =====
-- internal/graph/store.go and memory_store.go: the in-memory store of documents and of the log of
-- operations. The lists of canvases and their display data (`metas`) are left out.
pub mod Log
use ic.Prelude.{
  ℕ, ◌+◌, ◌-◌, String, Bool, not, List, [], ◌∷◌, ◌++◌, Option, none, some, leb, ltb, if◌then◌else◌,
  ◌==◌, length,
}
use ic.Prelude.Dict.{lookup, insert, delete, has}
use ic.Platform.Errors.{Result, ok, new_error, err_not_found, Code, refuse, or_fail, ◌>>=◌, ◌>>◌}
use ic.Graph.Document.{Document}
use ic.Graph.Operation.{RawOp}

pub record Record (F : Type 0) : Type 0 where
  pub seq : ℕ
  pub canvas_id : String
  pub actor_id : String
  pub op : RawOp F
  pub version : ℕ
  pub created_at : ℕ

pub record VersionEntry : Type 0 where
  pub version : ℕ
  pub seq : ℕ

pub record MemoryStore (F : Type 0) : Type 0 where
  pub docs : List (String × Document F)
  pub ops : List (String × List (Record F))
  pub seqs : List (String × ℕ)
  pub version_index : List (String × List VersionEntry)

-- The value of a map at a key that may be absent: the zero value.
abbrev pub at_or {ℓ} : {V : Type ℓ} → Option V → V → V
at_or none d = d
at_or (some v) d = v

abbrev pub limit_or_default : ℕ → ℕ
limit_or_default limit = if limit == 0 then 200 else limit

-- The last sequence number of the versions up to `since`: the loop breaks at a later version.
unfoldable pub seq_at : ℕ → ℕ → List VersionEntry → ℕ
seq_at since seq [] = seq
seq_at since seq (e ∷ es) =
    let rest = seq_at since e.seq es in if leb e.version since then rest else seq

module _ {F : Type 0} where
  abbrev pub new_memory_store : MemoryStore F
  new_memory_store = record { docs = []; ops = []; seqs = []; version_index = [] }

  unfoldable pub get_document : MemoryStore F → String → Result (Document F)
  get_document s canvas_id = or_fail (lookup canvas_id s.docs) (err_not_found "canvas")

  unfoldable pub create_document : MemoryStore F → Document F → Result (MemoryStore F)
  create_document s doc = do
    refuse (has doc.id s.docs) (new_error 409 Code.conflict "canvas already exists")
    ok (record s { docs = insert doc.id doc s.docs; ops = insert doc.id [] s.ops })

  unfoldable pub delete_document : MemoryStore F → String → Result (MemoryStore F)
  delete_document s canvas_id = do
    refuse (not (has canvas_id s.docs)) (err_not_found "canvas")
    ok (record s { docs = delete canvas_id s.docs; ops = delete canvas_id s.ops })

  -- One record for each operation, numbered on from `seq`.
  unfoldable pub records_from : ℕ → String → String → ℕ → ℕ → List (RawOp F) → List (Record F)
  records_from seq canvas_id actor version now [] = []
  records_from seq canvas_id actor version now (raw ∷ raws) =
      record {
        seq = seq + 1;
        canvas_id = canvas_id;
        actor_id = actor;
        op = raw;
        version = version;
        created_at = now;
      }
      ∷ records_from (seq + 1) canvas_id actor version now raws

  abbrev pub log_of : MemoryStore F → String → List (Record F)
  log_of s canvas_id = at_or (lookup canvas_id s.ops) []

  unfoldable pub store_append :
      MemoryStore F
      → String
      → ℕ
      → Document F
      → List (RawOp F)
      → String
      → ℕ
      → Result (ℕ × List (Record F) × MemoryStore F)
  store_append s canvas_id base_version doc raws actor now = do
    cur ← or_fail (lookup canvas_id s.docs) (err_not_found "canvas")
    refuse (not (cur.version == base_version)) (new_error 409 Code.conflict "version conflict")
    let version = cur.version + 1
    let seq = at_or (lookup canvas_id s.seqs) 0
    let records = records_from seq canvas_id actor version now raws
    let last = seq + length raws
    let entry : VersionEntry = record { version = version; seq = last }
    let entries = at_or (lookup canvas_id s.version_index) []
    ok (
      version,
      records,
      record {
        docs = insert canvas_id (record doc { version = version; updated_at = now }) s.docs;
        ops = insert canvas_id (log_of s canvas_id ++ records) s.ops;
        seqs = insert canvas_id last s.seqs;
        version_index = insert canvas_id (entries ++ entry ∷ []) s.version_index;
      },
    )

  -- The first `limit` records after `since`; the loop stops once it has them.
  unfoldable pub records_after : ℕ → ℕ → List (Record F) → List (Record F)
  records_after since room [] = []
  records_after since room (r ∷ rs) = elim (ltb since r.seq) [
    | Bool.false ↦ records_after since room rs
    | Bool.true ↦
        r ∷ elim (leb room 1) [ Bool.true ↦ [] | Bool.false ↦ records_after since (room - 1) rs ]
  ]

  unfoldable pub list_ops : MemoryStore F → String → ℕ → ℕ → List (Record F)
  list_ops s canvas_id since limit =
      records_after since (limit_or_default limit) (log_of s canvas_id)

  unfoldable pub list_ops_since_version : MemoryStore F → String → ℕ → ℕ → List (Record F)
  list_ops_since_version s canvas_id since limit =
      list_ops s canvas_id (seq_at since 0 (at_or (lookup canvas_id s.version_index) []))
        (limit_or_default limit)
