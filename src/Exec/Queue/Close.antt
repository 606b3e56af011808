-- ===== src/Exec/Queue/Close.antt =====
-- internal/exec/scheduler.go, `Close`: how many of the workers that wait it wakes.
use ic.Prelude.{ℕ, ◌+◌, ◌≤◌, ◌≡◌, refl, ap, ◌∙◌, String, Bool, true, false, arith}
use ic.Exec.Queue.{MemoryQueue, enqueue, close}
use ic.Exec.Queue.Callers.{
  System, Step, put, take, sleep, rise, expire, Run, stay, then_, then_shut, dequeue_turn-took,
  dequeue_turn-wait, wake-some,
}

unfoldable pub token : Bool → ℕ
token true = 1
token false = 0

enqueue-closed :
    (run_id : String) (q : MemoryQueue) → q.closed ≡ true → enqueue run_id q ≡ (true, q)
unfolding enqueue
enqueue-closed run_id q h = ground arith

Step-waits :
    (s t : System)
    → s.queue.closed ≡ true
    → Step s t
    → (t.queue.closed ≡ true)
      × (s.waiting + s.expired + token t.queue.notify
          ≤ t.waiting + t.expired + token s.queue.notify)
unfolding token
Step-waits s t shut (put run_id) = (
  ap (λ a. MemoryQueue.closed a.1) (enqueue-closed run_id s.queue shut) ∙ shut,
  rw (enqueue-closed run_id s.queue shut) (omega arith),
)
Step-waits s t shut (take {q = q} e) =
    let (_, _, same_notify, same_closed) = dequeue_turn-took s.queue _ _ e in
    (same_closed ∙ shut, rw same_notify (omega arith))
Step-waits s t shut (sleep {q = q} e) =
    let is_open = (dequeue_turn-wait s.queue q e).1 in absurd (ground arith)
Step-waits s t shut (rise {q = q} {n = n} e f) =
    let (_, _, same_closed, before, later) = wake-some s.queue q f in
    (same_closed ∙ shut, rw (later, before) (omega arith))
Step-waits s t shut (expire {n = n} e) = (shut, omega arith)

token-le : (b : Bool) → token b ≤ 1
unfolding token
token-le b = ground arith

-- A closed queue stays closed whatever is called. Of the workers that wait, apart from those whose own
-- context ends, at most one leaves for each further call of `Close`, and one more where a token is
-- there at first.
pub closed-waits :
    (s t : System) (n : ℕ)
    → s.queue.closed ≡ true
    → Run s t n
    → (t.queue.closed ≡ true)
      × (s.waiting + s.expired + token t.queue.notify
          ≤ t.waiting + t.expired + token s.queue.notify + n)
unfolding close
closed-waits s t n shut stay = (shut, omega arith)
closed-waits s t n shut (then_ {t = u} run step) =
    let (still, before) = closed-waits s u n shut run in
    let (kept, later) = Step-waits u t still step in (kept, omega arith)
closed-waits s t n shut (then_shut {t = u} {n = m} run) =
    let (still, before) = closed-waits s u m shut run in
    (refl, let l = token-le (close u.queue).notify in omega arith)
