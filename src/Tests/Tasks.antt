-- ===== src/Tests/Tasks.antt =====
-- A scheduler of three workers, over queues that are lists of numbers.
use tateyama.Base.{
  ℕ, ◌<◌, ◌≡◌, ◌↔◌, refl, Bool, true, false, ltb, Option, none, some, List, [], ◌∷◌, ◌++◌, arith,
}
use tateyama.Scheduler.Queue.{ConcurrentQueue, BasicQueue, tasks}
use tateyama.Scheduler.Notifier.{count_times, init, period_notifies}
use tateyama.Scheduler.Selection.{Preference, suspended_worker, select_worker}
use tateyama.Scheduler.Selection.Suspended.{select_worker-suspended}
use tateyama.Scheduler.Dispatch.{Scheduler, schedule_at}
use tateyama.Scheduler.Dispatch.Placement.{schedule_at-placed, tasks_at, initial_at}
use tateyama.Scheduler.Worker
use tateyama.Scheduler.Worker.{Local, try_local_and_sticky}
use tateyama.Scheduler.Worker.Tasks.{init-tasks, try_local_and_sticky-tasks, only, Takes}
use tateyama.Scheduler.Conditional
use tateyama.Scheduler.Conditional.{process_next-tasks}

abbrev pop_list : List ℕ → Option (ℕ × List ℕ)
pop_list [] = none
pop_list (t ∷ ts) = some (t, ts)

pop_list-none : (q : List ℕ) → pop_list q ≡ none → q ≡ []
pop_list-none [] e = refl
pop_list-none (t ∷ ts) e = absurd (ground (arith, e))

pop_list-some : (q : List ℕ) (t : ℕ) (q' : List ℕ) → pop_list q ≡ some (t, q') → q ≡ t ∷ q'
pop_list-some [] t q' e = absurd (ground (arith, e))
pop_list-some (u ∷ us) t q' e = ground (arith, e)

abbrev list_queue : ConcurrentQueue ℕ
list_queue = record {
  Q = List ℕ;
  fresh = [];
  push = λ q t. q ++ t ∷ [];
  try_pop = pop_list;
  contents = λ q. q;
  contents-fresh = refl;
  contents-push = λ q t. refl;
  try_pop-none = pop_list-none;
  try_pop-some = pop_list-some;
}

-- the tasks below ten are sticky
abbrev below_ten : ℕ → Bool
below_ten t = ltb t 10

abbrev queue : List ℕ → BasicQueue list_queue
queue ts = record { origin = ts; is_active = true }

init-tasks_example :
    (s' : List ℕ) × (q' : BasicQueue list_queue) × (sq' : BasicQueue list_queue) × (Worker.init
        list_queue below_ten
        (20 ∷ 3 ∷ 30 ∷ [])
        (queue [])
        (queue [])
      ≡ some (s', q', sq'))
    × (s' ≡ [])
    × (tasks list_queue q' ≡ only below_ten false (20 ∷ 3 ∷ 30 ∷ []))
    × (tasks list_queue sq' ≡ only below_ten true (20 ∷ 3 ∷ 30 ∷ []))
init-tasks_example = init-tasks list_queue below_ten (20 ∷ 3 ∷ 30 ∷ []) (queue []) (queue [])

abbrev worker : Local list_queue below_ten
worker = record {
  context = record {
    last_steal_from = 0;
    busy_working = false;
    notifier = record { notifications = 1; period = 2; current = 0 };
    stat = record { count = 0; steal = 0; sticky = 0; wakeup_run = 0; suspend = 0 };
    executed = [];
  };
  queue = queue (20 ∷ []);
  sticky_queue = queue (3 ∷ []);
}

try_local_and_sticky-tasks_example :
    let (done, l') = try_local_and_sticky list_queue below_ten worker in
    (done ≡ true → Takes list_queue below_ten worker l')
    × (done ≡ false
        → (l'.context.executed ≡ [])
          × (l'.queue ≡ worker.queue)
          × (l'.sticky_queue ≡ worker.sticky_queue)
          × (worker.queue.is_active ≡ true → tasks list_queue worker.queue ≡ [])
          × (worker.sticky_queue.is_active ≡ true → tasks list_queue worker.sticky_queue ≡ []))
try_local_and_sticky-tasks_example = try_local_and_sticky-tasks list_queue below_ten worker

process_next-tasks_example :
    (answer : Bool) × (q' : BasicQueue list_queue) × (Conditional.process_next list_queue below_ten
        (queue (20 ∷ 3 ∷ []))
      ≡ some (answer, q', 3 ∷ []))
    × (tasks list_queue q' ≡ 20 ∷ [])
    × ((answer ≡ false) ↔ (tasks list_queue q' ≡ []))
process_next-tasks_example = process_next-tasks list_queue below_ten (queue (20 ∷ 3 ∷ []))

period_notifies_example : let (k, q) = count_times 5 (init 2 5) in (k ≡ 2) × (q.current ≡ 0)
period_notifies_example = period_notifies 2 5 (omega arith) (omega arith)

abbrev no_preference : Preference
no_preference = record { next_worker_index_before_modulo = 7; index_for_this_thread = none }

-- all but worker 0 are active
select_worker-suspended_example :
    (r : ℕ) × (q : Preference) × (select_worker 3 true (λ i. ltb 0 i) suspended_worker no_preference
      ≡ some (r, q))
    × (r < 3)
    × (ltb 0 r ≡ true → (i : ℕ) → i < 3 → ltb 0 i ≡ true)
select_worker-suspended_example =
    select_worker-suspended 3 true (λ i. ltb 0 i) no_preference (omega arith)
      (λ i e. absurd (ground (arith, e)))

abbrev scheduler : Scheduler list_queue below_ten
scheduler = record {
  size = 2;
  use_preferred_worker_for_current_thread = false;
  busy_worker = false;
  started = true;
  initial_tasks = [] ∷ [] ∷ [];
  queues = queue (20 ∷ []) ∷ queue [] ∷ [];
  sticky_task_queues = queue [] ∷ queue (4 ∷ []) ∷ [];
  conditional_queue = queue [];
  activated = false ∷ false ∷ [];
  watcher_activated = false;
  preference = no_preference;
}

schedule_at-placed_example :
    let s' = schedule_at list_queue below_ten 5 1 scheduler in
    (initial_at list_queue below_ten s'.initial_tasks 1 ≡ [])
    × (tasks_at list_queue below_ten s'.queues 1 ≡ [])
    × (tasks_at list_queue below_ten s'.sticky_task_queues 1 ≡ 4 ∷ 5 ∷ [])
schedule_at-placed_example =
    schedule_at-placed list_queue below_ten 5 1 scheduler 1 (omega arith) (omega arith)
      (omega arith)
