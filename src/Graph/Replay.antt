-- ===== src/Graph/Replay.antt =====
-- internal/graph/replay.go: the log applied again to an empty document, one operation at a time.
use ic.Prelude.{ℕ, ◌+◌, ◌≡◌, String, List, [], ◌∷◌, length, arith}
use ic.Platform.Errors.{Result, ok, ◌>>=◌, >>=-eq-ok}
use ic.Platform.Float.{Float64}
use ic.Graph.Document.{Document, new_document}
use ic.Graph.Schema.{PluginSchemas}
use ic.Graph.Operation.{RawOp}
use ic.Graph.Apply.Dispatch.{apply, ApplyResult}

module _ {F : Type 0} ⦃fl : Float64 F⦄ (plugins : PluginSchemas) where
  unfoldable pub replay_from : Document F → List (RawOp F) → ℕ → Result (Document F)
  replay_from out [] now = ok out
  replay_from out (raw ∷ raws) now = do
    r ← apply plugins out (raw ∷ []) "replay" now
    replay_from r.1 raws now

  unfoldable pub replay : Document F → List (RawOp F) → ℕ → Result (Document F)
  unfolding replay_from
  replay doc raws now =
      replay_from (record (new_document doc.id doc.project_id) { settings = doc.settings }) raws now

  version-apply_one_op :
      (doc : Document F) (raw : RawOp F) (actor : String) (now : ℕ) (r : ApplyResult F × Document F)
      → apply plugins doc (raw ∷ []) actor now ≡ ok r
      → r.1.version ≡ doc.version + 1
  unfolding apply
  version-apply_one_op doc raw actor now r h = ground arith

  version-replay_from :
      (out d : Document F) (raws : List (RawOp F)) (now : ℕ)
      → replay_from out raws now ≡ ok d
      → d.version ≡ out.version + length raws
  unfolding replay_from
  version-replay_from out d [] now h = ground arith
  version-replay_from out d (raw ∷ raws) now h =
      let (r, first, later) = >>=-eq-ok (apply plugins out (raw ∷ []) "replay" now) _ h in
      omega (
        arith,
        version-replay_from r.1 d raws now later,
        version-apply_one_op out raw "replay" now r first,
      )

  -- The document that a log replays to has as its version the number of the log's operations.
  pub version-replay :
      (doc d : Document F) (raws : List (RawOp F)) (now : ℕ)
      → replay doc raws now ≡ ok d
      → d.version ≡ length raws
  unfolding replay new_document
  version-replay doc d raws now h =
      let empty : Document F = record (new_document doc.id doc.project_id) {
        settings = doc.settings;
      } in
      omega (arith, version-replay_from empty d raws now h)
