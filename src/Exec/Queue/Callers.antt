-- ===== src/Exec/Queue/Callers.antt =====
-- internal/exec/scheduler.go: the queue with its callers, as a step relation. The runs that the queue
-- took in and the runs that it gave out are kept beside it, and the workers that wait are counted, as
-- are those whose context ended while they waited.
use ic.Prelude.{
  ℕ, suc, ◌+◌, ◌≡◌, String, true, false, List, [], ◌∷◌, ◌++◌, some, arith, if◌then◌else◌,
}
use ic.Prelude.Int.{ℤ}
use ic.Exec.Queue.{MemoryQueue, took, wait, new_memory_queue, enqueue, dequeue_turn, close, wake}

pub record System : Type 0 where
  pub queue : MemoryQueue
  pub entered : List String
  pub left : List String
  pub waiting : ℕ
  pub expired : ℕ

-- A run enters the queue when the call answers no error and the queue is open.
unfoldable pub entering : String → MemoryQueue → List String
entering run_id q = if q.closed then [] else if (enqueue run_id q).0 then run_id ∷ [] else []

pub data Step : System → System → Type 0 where
  put :
      {s : System} (run_id : String)
      → Step s (record s {
        queue = (enqueue run_id s.queue).1;
        entered = s.entered ++ entering run_id s.queue;
      })
  take :
      {s : System} {run_id : String} {q : MemoryQueue}
      → dequeue_turn s.queue ≡ (took run_id, q)
      → Step s (record s { queue = q; left = s.left ++ run_id ∷ [] })
  sleep :
      {s : System} {q : MemoryQueue}
      → dequeue_turn s.queue ≡ (wait, q)
      → Step s (record s { queue = q; waiting = s.waiting + 1 })
  rise :
      {s : System} {q : MemoryQueue} {n : ℕ}
      → s.waiting ≡ suc n
      → wake s.queue ≡ some q
      → Step s (record s { queue = q; waiting = n })
  -- The context of a worker that waits has ended: `Dequeue` answers false.
  expire :
      {s : System} {n : ℕ}
      → s.waiting ≡ suc n
      → Step s (record s { waiting = n; expired = s.expired + 1 })

-- Any number of steps, with the number of calls of `Close` among them.
pub data Run : System → System → ℕ → Type 0 where
  stay : {s : System} → Run s s 0
  then_ : {s t u : System} {n : ℕ} → Run s t n → Step t u → Run s u n
  then_shut :
      {s t : System} {n : ℕ} → Run s t n → Run s (record t { queue = close t.queue }) (n + 1)

abbrev pub start : ℤ → System
start capacity = record {
  queue = new_memory_queue capacity;
  entered = [];
  left = [];
  waiting = 0;
  expired = 0;
}

pub dequeue_turn-took :
    (q r : MemoryQueue) (run_id : String)
    → dequeue_turn q ≡ (took run_id, r)
    → (q.items ≡ run_id ∷ r.items) × (r.cap ≡ q.cap) × (r.notify ≡ q.notify) × (r.closed ≡ q.closed)
unfolding dequeue_turn
dequeue_turn-took q r run_id h = ground arith

pub dequeue_turn-wait :
    (q r : MemoryQueue) → dequeue_turn q ≡ (wait, r) → (r ≡ q) × (q.closed ≡ false)
unfolding dequeue_turn
dequeue_turn-wait q r h = ground arith

pub wake-some :
    (q r : MemoryQueue)
    → wake q ≡ some r
    → (r.items ≡ q.items)
      × (r.cap ≡ q.cap)
      × (r.closed ≡ q.closed)
      × (q.notify ≡ true)
      × (r.notify ≡ false)
unfolding wake
wake-some q r h = ground arith
