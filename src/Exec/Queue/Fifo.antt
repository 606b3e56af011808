-- ===== src/Exec/Queue/Fifo.antt =====
-- internal/exec/scheduler.go: the order of the runs in the queue, and how many there are.
use ic.Prelude.{
  append_assoc, append_nil, ℕ, ◌≤◌, ◌≡◌, refl, sym, ap, ◌∙◌, String, [], ◌∷◌, ◌++◌, arith, length,
  length-append,
}
use ic.Prelude.Int.{ℤ}
use ic.Exec.Queue.{MemoryQueue, new_memory_queue, enqueue, close}
use ic.Exec.Queue.Callers.{
  start, System, entering, Step, put, take, sleep, rise, expire, Run, stay, then_, then_shut,
  dequeue_turn-took, dequeue_turn-wait, wake-some,
}

pub record IsFifo (limit : ℕ) (s : System) : Type 0 where
  pub order : s.entered ≡ s.left ++ s.queue.items
  pub bound : length s.queue.items ≤ limit
  pub same_cap : s.queue.cap ≡ limit

items-enqueue :
    (run_id : String) (q : MemoryQueue) → (enqueue run_id q).1.items ≡ q.items ++ entering run_id q
unfolding enqueue entering
items-enqueue run_id q = ground (arith, append_nil q.items)

length-enqueue :
    (run_id : String) (q : MemoryQueue) (limit : ℕ)
    → q.cap ≡ limit
    → length q.items ≤ limit
    → length (enqueue run_id q).1.items ≤ limit
unfolding enqueue
length-enqueue run_id q limit e h = ground (arith, length-append q.items (run_id ∷ []))

cap-enqueue : (run_id : String) (q : MemoryQueue) → (enqueue run_id q).1.cap ≡ q.cap
unfolding enqueue
cap-enqueue run_id q = ground arith

Step-IsFifo : (limit : ℕ) (s t : System) → IsFifo limit s → Step s t → IsFifo limit t
Step-IsFifo limit s t i (put run_id) = record {
  order =
      ap (λ l. l ++ entering run_id s.queue) i.order
      ∙ append_assoc s.left s.queue.items (entering run_id s.queue)
      ∙ ap (λ l. s.left ++ l) (sym (items-enqueue run_id s.queue));
  bound = length-enqueue run_id s.queue limit i.same_cap i.bound;
  same_cap = cap-enqueue run_id s.queue ∙ i.same_cap;
}
Step-IsFifo limit s t i (take {run_id = run_id} {q = q} e) =
    let (parts, same_cap, _, _) = dequeue_turn-took s.queue q run_id e in
    record {
      order =
          i.order ∙ ap (λ l. s.left ++ l) parts ∙ sym (append_assoc s.left (run_id ∷ []) q.items);
      bound = let b = i.bound in ground arith;
      same_cap = same_cap ∙ i.same_cap;
    }
Step-IsFifo limit s t i (sleep {q = q} e) =
    let same_queue = (dequeue_turn-wait s.queue q e).0 in
    record {
      order = rw same_queue i.order;
      bound = rw same_queue i.bound;
      same_cap = rw same_queue i.same_cap;
    }
Step-IsFifo limit s t i (rise {q = q} e f) =
    let (items, same_cap, _, _, _) = wake-some s.queue q f in
    record { order = rw items i.order; bound = rw items i.bound; same_cap = same_cap ∙ i.same_cap }
Step-IsFifo limit s t i (expire {n = n} e) = record {
  order = i.order;
  bound = i.bound;
  same_cap = i.same_cap;
}

close-IsFifo :
    (limit : ℕ) (s : System) → IsFifo limit s → IsFifo limit (record s { queue = close s.queue })
unfolding close
close-IsFifo limit s i = record { order = i.order; bound = i.bound; same_cap = i.same_cap }

Run-IsFifo : (limit n : ℕ) (s t : System) → IsFifo limit s → Run s t n → IsFifo limit t
Run-IsFifo limit n s t i stay = i
Run-IsFifo limit n s t i (then_ {t = u} run step) =
    Step-IsFifo limit u t (Run-IsFifo limit n s u i run) step
Run-IsFifo limit n s t i (then_shut {t = u} {n = m} run) =
    close-IsFifo limit u (Run-IsFifo limit m s u i run)

-- From a new queue, the runs that entered are those given out and then those in the queue, in the same
-- order, and the queue holds at most as many as its capacity.
pub queue-IsFifo :
    (capacity : ℤ) (n : ℕ) (t : System)
    → Run (start capacity) t n
    → IsFifo (new_memory_queue capacity).cap t
unfolding new_memory_queue
queue-IsFifo capacity n t run =
    Run-IsFifo (new_memory_queue capacity).cap n (start capacity) t
      (record { order = refl; bound = omega arith; same_cap = refl }) run
