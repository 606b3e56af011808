-- ===== src/Exec/Examples.antt =====
-- The theorems on the queue and on the costs, at small queues and usages.
use ic.Prelude.{◌*◌, ◌/◌, ◌↔◌, ◌+◌, ◌≤◌, ◌≡◌, refl, true, false, [], ◌∷◌, arith}
use ic.Prelude.Int.{pos, ◌+ℤ◌, ◌*ℤ◌}
use ic.Platform.Errors.{ok}
use ic.Exec.Quota.{QuotaDecision, QuotaStore, Calendar, check_quota}
use ic.Exec.Quota.Decision.{limits, Within, check_quota-allows}
use ic.Exec.Queue.{new_memory_queue, enqueue, dequeue_turn, close, wake}
use ic.Exec.Queue.Callers.{System, Run, stay, then_, put, take, rise, expire, start, entering}
use ic.Exec.Queue.Fifo.{IsFifo, queue-IsFifo}
use ic.Exec.Queue.Close.{token, closed-waits}
use ic.Exec.Cost.{add_usage, compute_cost, charge, div_int, wrap64}
use ic.Exec.Cost.Exact.{prices, amounts, exact_cost, compute_cost-exact, compute_cost-add_usage}

program : Unit {0}
unfolding new_memory_queue enqueue dequeue_turn close wake entering token add_usage compute_cost
    charge div_int wrap64 exact_cost ◌+ℤ◌ ◌*ℤ◌
program = tt

-- Two runs entered a queue of two places, a third was refused, and one run was taken.
abbrev served : System
served = record {
  queue = record { items = "r2" ∷ []; notify = true; closed = false; cap = 2 };
  entered = "r1" ∷ "r2" ∷ [];
  left = "r1" ∷ [];
  waiting = 0;
  expired = 0;
}

serving : Run (start (pos 2)) served 0
unfolding program
serving = then_ (then_ (then_ (then_ stay (put "r1")) (put "r2")) (put "r3")) (take refl)

queue-IsFifo_example : IsFifo (new_memory_queue (pos 2)).cap served
queue-IsFifo_example = queue-IsFifo (pos 2) 0 served serving

-- A closed queue with its token, and three workers that wait: one is woken, and one gives up.
abbrev closing : System
closing = record {
  queue = record { items = []; notify = true; closed = true; cap = 2 };
  entered = [];
  left = [];
  waiting = 3;
  expired = 0;
}

abbrev one_left : System
one_left = record {
  queue = record { items = []; notify = false; closed = true; cap = 2 };
  entered = [];
  left = [];
  waiting = 1;
  expired = 1;
}

waking : Run closing one_left 0
unfolding program
waking = then_ (then_ stay (rise refl refl)) (expire refl)

closed-waits_example :
    (one_left.queue.closed ≡ true)
    × (closing.waiting + closing.expired + token one_left.queue.notify
        ≤ one_left.waiting + one_left.expired + token closing.queue.notify + 0)
closed-waits_example = closed-waits closing one_left 0 refl waking

compute_cost-exact_example :
    compute_cost (prices 3 15 40000 100000 6000) (amounts 1000000 200000 2 5500 0)
    ≡ pos (exact_cost 3 15 40000 100000 6000 1000000 200000 2 5500 0)
compute_cost-exact_example =
    compute_cost-exact 3 15 40000 100000 6000 1000000 200000 2 5500 0 (omega arith)

cost_rounds_down : compute_cost (prices 3 15 40000 100000 6000) (amounts 400000 0 0 0 0) ≡ pos 1
unfolding program
cost_rounds_down = refl

cost_of_both :
    compute_cost
      (prices 3 15 40000 100000 6000)
      (add_usage (amounts 400000 0 0 0 0) (amounts 400000 0 0 0 0))
    ≡ pos 2
unfolding program
cost_of_both = refl

compute_cost-add_usage_example : (1 + 1 ≤ 2) × (2 ≤ 1 + 1 + 4)
compute_cost-add_usage_example =
    compute_cost-add_usage 3 15 40000 100000 6000 400000 0 0 0 0 400000 0 0 0 0 1 1 2 (omega arith)
      (omega arith) (omega arith) (omega arith) (omega arith) (omega arith) cost_rounds_down
      cost_rounds_down cost_of_both

-- A workspace with a limit for a run and one for a day, in a calendar of equal days and months.
abbrev shop : QuotaStore
shop = record {
  quota = λ ws_id. ok (limits 300 1000 0 "UTC");
  usage_since = λ ws_id since until. ok (pos 650);
}

abbrev equal_days : Calendar
equal_days = record {
  day_bounds = λ zone now. (now / 24 * 24, now / 24 * 24 + 24);
  month_bounds = λ zone now. (now / 720 * 720, now / 720 * 720 + 720);
}

check_quota-allows_example :
    (d : QuotaDecision) × (check_quota shop equal_days "ws" (pos 250) 100 ≡ ok d)
    × ((d.allowed ≡ true) ↔ (Within 300 250 × Within 1000 (650 + 250) × Within 0 (650 + 250)))
check_quota-allows_example =
    check_quota-allows shop equal_days "ws" "UTC" 300 1000 0 650 650 250 100 refl refl refl
      (omega arith) (omega arith)
