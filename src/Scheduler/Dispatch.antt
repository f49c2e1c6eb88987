-- ===== src/Scheduler/Dispatch.antt =====
-- How a task reaches a worker's queue: `schedule_at` and its callers in
-- include/tateyama/task_scheduler/scheduler.h.
pub mod Placement
use tateyama.Base.{
  ℕ, zero, suc, ◌+◌, Bool, true, false, not, if◌then◌else◌, Option, none, some, List, [], ◌∷◌, map,
  get_elem?, set,
}
use tateyama.Scheduler.Queue
use tateyama.Scheduler.Queue.{ConcurrentQueue, BasicQueue, push, deactivate}
use tateyama.Scheduler.Selection.{Preference, SchedulePolicyKind, select_worker}

module _ {T : Type 0} (c : ConcurrentQueue T) (is_sticky : T → Bool) where
  -- `activated` holds for each thread whether its `activate` has been called.
  pub record Scheduler : Type 0 where
    pub size : ℕ
    pub use_preferred_worker_for_current_thread : Bool
    pub busy_worker : Bool
    pub started : Bool
    pub initial_tasks : List c.Q
    pub queues : List (BasicQueue c)
    pub sticky_task_queues : List (BasicQueue c)
    pub conditional_queue : BasicQueue c
    pub activated : List Bool
    pub watcher_activated : Bool
    pub preference : Preference

  abbrev pub activate : ℕ → Scheduler → Scheduler
  activate index s =
      if s.busy_worker then s else record s { activated = set s.activated index true }

  -- queues_[index].push(t)
  unfoldable pub push_at : List (BasicQueue c) → ℕ → T → List (BasicQueue c)
  unfolding push
  push_at [] index t = []
  push_at (q ∷ qs) zero t = push c q t ∷ qs
  push_at (q ∷ qs) (suc index) t = q ∷ push_at qs index t

  -- initial_tasks_[index].push(t)
  unfoldable pub push_initial : List c.Q → ℕ → T → List c.Q
  push_initial [] index t = []
  push_initial (q ∷ qs) zero t = c.push q t ∷ qs
  push_initial (q ∷ qs) (suc index) t = q ∷ push_initial qs index t

  -- `schedule_at`, for an index below the number of workers
  unfoldable pub schedule_at : T → ℕ → Scheduler → Scheduler
  unfolding push_at push_initial
  schedule_at t index s =
      if not s.started
      then record s { initial_tasks = push_initial s.initial_tasks index t }
      else if is_sticky t
      then activate index (record s { sticky_task_queues = push_at s.sticky_task_queues index t })
      else activate index (record s { queues = push_at s.queues index t })

  -- `schedule`; `active` tells which threads are active
  unfoldable pub schedule : T → SchedulePolicyKind → (ℕ → Bool) → Scheduler → Option Scheduler
  unfolding select_worker schedule_at
  schedule t policy active s =
      elim (select_worker s.size s.use_preferred_worker_for_current_thread active policy
        s.preference) [
          | none ↦ none
          | some (index, p) ↦ some (schedule_at t index (record s { preference = p }))
        ]

  -- `schedule_conditional`, with a watcher thread
  unfoldable pub schedule_conditional : T → Scheduler → Scheduler
  unfolding push
  schedule_conditional t s = record s {
    conditional_queue = push c s.conditional_queue t;
    watcher_activated = true;
  }

  -- `start`, once all threads are initialised
  unfoldable pub start : Scheduler → Scheduler
  start s = record s {
    activated = map (λ _. true) s.activated;
    watcher_activated = true;
    started = true;
  }

  -- `stop`; the wait for the threads is left out
  unfoldable pub stop : Scheduler → Scheduler
  unfolding deactivate
  stop s = record s {
    queues = map (deactivate c) s.queues;
    sticky_task_queues = map (deactivate c) s.sticky_task_queues;
    conditional_queue = deactivate c s.conditional_queue;
    started = false;
  }
