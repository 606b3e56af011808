-- ===== src/Exec/Queue.antt =====
-- internal/exec/scheduler.go: `MemoryQueue`, the bounded queue of runs. Each operation holds the lock
-- for its whole body, so it is one step; `notify` is the channel of capacity one.
pub mod Callers
pub mod Fifo
pub mod Close
use ic.Prelude.{
  ℕ, ◌+◌, ◌≤◌, ◌<◌, ◌≡◌, ◌≢◌, refl, String, Bool, true, false, List, [], ◌∷◌, ◌++◌, Option, none,
  some, arith, leb, length, length-append, if◌then◌else◌, Bool-cases, inl, inr,
}
use ic.Prelude.Int.{ℤ, pos, negsuc}

pub record MemoryQueue : Type 0 where
  pub items : List String
  pub notify : Bool
  pub closed : Bool
  pub cap : ℕ

unfoldable pub new_memory_queue : ℤ → MemoryQueue
new_memory_queue capacity = record {
  items = [];
  notify = false;
  closed = false;
  cap = or_default capacity;
}
  where
    or_default : ℤ → ℕ
    or_default (pos n) = if leb n 0 then 1024 else n
    or_default (negsuc n) = 1024

-- Whether the caller sees `ErrQueueFull`, and the queue after the call.
unfoldable pub enqueue : String → MemoryQueue → Bool × MemoryQueue
enqueue run_id q =
    if q.closed
    then (true, q)
    else if leb q.cap (length q.items)
    then (false, q)
    else (true, record q { items = q.items ++ run_id ∷ []; notify = true })

-- What one turn of the loop of `Dequeue` does under the lock.
pub data Turn : Type 0 where
  took : String → Turn
  done : Turn
  wait : Turn

unfoldable pub dequeue_turn : MemoryQueue → Turn × MemoryQueue
dequeue_turn q = elim (q.items) [
  | [] ↦ if q.closed then (done, q) else (wait, q)
  | id ∷ rest ↦ (took id, record q { items = rest })
]

unfoldable pub close : MemoryQueue → MemoryQueue
close q = record q { closed = true; notify = true }

-- A waiting worker goes round the loop again when it takes the token.
unfoldable pub wake : MemoryQueue → Option MemoryQueue
wake q = if q.notify then some (record q { notify = false }) else none
