-- ===== src/Graph/Service/Examples.antt =====
-- The theorems on the service and on late batches, at a store with one small canvas.
use ic.Prelude.{
  ◌+◌, List, length, ◌-◌, ℕ, ◌≤◌, ◌≡◌, ◌≢◌, refl, true, false, [], ◌∷◌, none, some, same,
}
use ic.Prelude.Int.{pos, ◌+ℤ◌, ◌-ℤ◌}
use ic.Prelude.Dict.{lookup, insert, delete, has}
use ic.Platform.Errors.{ok}
use ic.Platform.Sample.{Sample, fin, sample_float}
use ic.Graph.Document.{new_document}
use ic.Graph.Ids.{valid_id}
use ic.Graph.Geometry.{check_coord, validate_rect}
use ic.Graph.Operation.{Op, move_node, set_title}
use ic.Graph.Apply.Nodes.{apply_move_node, apply_set_title}
use ic.Graph.Apply.Dispatch.{apply_one, apply_all, apply, decode_op}
use ic.Graph.Store.Log.{IsNumbered, take, drop, list_ops-page, store_append-IsNumbered}
use ic.Graph.Store.{
  log_of, at_or, limit_or_default, Record, MemoryStore, get_document, store_append, records_from,
  records_after, seq_at, list_ops, list_ops_since_version,
}
use ic.Graph.Rebase.{touched_inflight, touches_of, conflicts, all_free, rebaseable, same_touch}
use ic.Graph.Service.{Appended, append_ops, submit, commit, check_base, check_rebase, inflight}
use ic.Graph.Service.Commit.{Extends, append_ops-Extends}
use ic.Graph.Samples.{value, chain, raw_op}

abbrev move_a : Op Sample
move_a = move_node (record { id = "a"; x = fin (pos 40); y = fin (pos 7); delta = true })

abbrev name_b : Op Sample
name_b = set_title (record { id = "b"; title = "hero" })

abbrev moved : Record Sample
moved = record {
  seq = 1;
  canvas_id = "cv";
  actor_id = "ann";
  op = raw_op "move_node" move_a;
  version = 1;
  created_at = 5;
}

-- The canvas at version 1, which moved `a` since version 0.
abbrev store : MemoryStore Sample
store = record {
  docs = ("cv", chain) ∷ [];
  ops = ("cv", moved ∷ []) ∷ [];
  seqs = ("cv", 1) ∷ [];
  version_index = ("cv", record { version = 1; seq = 1 } ∷ []) ∷ [];
}

program : Unit {0}
unfolding apply apply_one apply_all decode_op valid_id check_coord validate_rect same lookup insert
    has new_document ◌+ℤ◌ ◌-ℤ◌ delete apply_move_node apply_set_title get_document store_append
    records_from records_after seq_at list_ops list_ops_since_version touched_inflight touches_of
    conflicts all_free rebaseable same_touch append_ops submit commit check_base check_rebase
program = tt

abbrev late : Appended Sample
late =
    value
      (record {
        result = record { version = 0; applied = 0; inverse = []; rebased = false };
        doc = chain;
        store = store;
        events = [];
      })
      (append_ops none store "cv" (pos 0) (raw_op "set_title" name_b ∷ []) "bob" 9)

late_works : append_ops none store "cv" (pos 0) (raw_op "set_title" name_b ∷ []) "bob" 9 ≡ ok late
unfolding program
late_works = refl

late_is_second : late.result.version ≡ 2
unfolding program
late_is_second = refl

chain_stored : lookup "cv" store.docs ≡ some chain
unfolding program
chain_stored = refl

append_ops-Extends_example :
    Extends none store "cv" chain (raw_op "set_title" name_b ∷ []) "bob" 9 late
    × ((base : ℕ) × (pos 0 ≡ pos base)
        × (base ≤ chain.version)
        × (base ≢ chain.version
            → rebaseable (raw_op "set_title" name_b ∷ []) (inflight store "cv" base chain.version)
              ≡ true))
append_ops-Extends_example =
    append_ops-Extends none store "cv" chain (pos 0) (raw_op "set_title" name_b) [] "bob" 9 late
      chain_stored late_works

log_from_one : IsNumbered 0 (log_of store "cv")
unfolding program
log_from_one = (refl, tt)

list_ops-page_example :
    list_ops store "cv" 0 5 ≡ take (limit_or_default 5) (drop (0 - 0) (log_of store "cv"))
list_ops-page_example = list_ops-page store "cv" 0 0 5 log_from_one

seq_is_one : at_or (lookup "cv" store.seqs) 0 ≡ 0 + length (log_of store "cv")
unfolding program
seq_is_one = refl

abbrev grown : ℕ × List (Record Sample) × MemoryStore Sample
grown =
    value (0, [], store) (store_append store "cv" 1 chain (raw_op "set_title" name_b ∷ []) "bob" 9)

grown_works : store_append store "cv" 1 chain (raw_op "set_title" name_b ∷ []) "bob" 9 ≡ ok grown
unfolding program
grown_works = refl

store_append-IsNumbered_example :
    IsNumbered 0 (log_of grown.2 "cv")
    × (at_or (lookup "cv" grown.2.seqs) 0 ≡ 0 + length (log_of grown.2 "cv"))
store_append-IsNumbered_example =
    store_append-IsNumbered store "cv" 1 0 chain (raw_op "set_title" name_b ∷ []) "bob" 9 grown
      log_from_one seq_is_one grown_works
