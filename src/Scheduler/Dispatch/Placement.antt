-- ===== src/Scheduler/Dispatch/Placement.antt =====
-- Where a scheduled task is put.
use tateyama.Base.{
  ℕ, zero, suc, ◌<◌, ◌≡◌, ap, ◌∙◌, Bool, true, not, ◌&&◌, ◌==◌, if◌then◌else◌, none, some, List, [],
  ◌∷◌, ◌++◌, get_elem?, length, arith, append-nil,
}
use tateyama.Scheduler.Queue.{ConcurrentQueue, BasicQueue, tasks, tasks-push}
use tateyama.Scheduler.Dispatch.{Scheduler, schedule_at, push_at, push_initial}

module _ {T : Type 0} (c : ConcurrentQueue T) (is_sticky : T → Bool) where
  abbrev pub tasks_at : List (BasicQueue c) → ℕ → List T
  tasks_at qs i = elim (get_elem? qs i) [ none ↦ [] | some q ↦ tasks c q ]

  abbrev pub initial_at : List c.Q → ℕ → List T
  initial_at qs i = elim (get_elem? qs i) [ none ↦ [] | some q ↦ c.contents q ]

  -- the task, at the index that it was scheduled for
  abbrev pub placed : Bool → T → ℕ → ℕ → List T
  placed b t index i = if b && (i == index) then t ∷ [] else []

  tasks-push_at :
      (qs : List (BasicQueue c)) (index i : ℕ) (t : T)
      → index < length qs
      → tasks_at (push_at c is_sticky qs index t) i ≡ tasks_at qs i ++ placed true t index i
  unfolding push_at
  tasks-push_at [] index i t h = absurd (omega arith)
  tasks-push_at (q ∷ qs) zero zero t h = tasks-push c q t
  tasks-push_at (q ∷ qs) zero (suc i) t h = ground (arith, append-nil (tasks_at qs i))
  tasks-push_at (q ∷ qs) (suc index) zero t h = ground (arith, append-nil (tasks c q))
  tasks-push_at (q ∷ qs) (suc index) (suc i) t h =
      tasks-push_at qs index i t (omega arith)
      ∙ ap (λ (ts : List T). tasks_at qs i ++ ts) (ground arith)

  contents-push_initial :
      (qs : List c.Q) (index i : ℕ) (t : T)
      → index < length qs
      → initial_at (push_initial c is_sticky qs index t) i
        ≡ initial_at qs i ++ placed true t index i
  unfolding push_initial
  contents-push_initial [] index i t h = absurd (omega arith)
  contents-push_initial (q ∷ qs) zero zero t h = c.contents-push q t
  contents-push_initial (q ∷ qs) zero (suc i) t h = ground (arith, append-nil (initial_at qs i))
  contents-push_initial (q ∷ qs) (suc index) zero t h = ground (arith, append-nil (c.contents q))
  contents-push_initial (q ∷ qs) (suc index) (suc i) t h =
      contents-push_initial qs index i t (omega arith)
      ∙ ap (λ (ts : List T). initial_at qs i ++ ts) (ground arith)

  -- A task scheduled at a worker of the scheduler is put at the end of one queue of that worker: its
  -- initial tasks before the start, and afterwards its sticky or its local queue, as the task says.
  -- Every other queue has the tasks that it had.
  pub schedule_at-placed :
      (t : T) (index : ℕ) (s : Scheduler c is_sticky) (i : ℕ)
      → index < length s.initial_tasks
      → index < length s.queues
      → index < length s.sticky_task_queues
      → let s' = schedule_at c is_sticky t index s in
        (initial_at s'.initial_tasks i
          ≡ initial_at s.initial_tasks i ++ placed (not s.started) t index i)
        × (tasks_at s'.queues i
            ≡ tasks_at s.queues i ++ placed (s.started && not (is_sticky t)) t index i)
        × (tasks_at s'.sticky_task_queues i
            ≡ tasks_at s.sticky_task_queues i ++ placed (s.started && is_sticky t) t index i)
  unfolding schedule_at
  schedule_at-placed t index s i hi hq hs = ground (
    arith,
    contents-push_initial s.initial_tasks index i t hi,
    tasks-push_at s.queues index i t hq,
    tasks-push_at s.sticky_task_queues index i t hs,
    append-nil (initial_at s.initial_tasks i),
    append-nil (tasks_at s.queues i),
    append-nil (tasks_at s.sticky_task_queues i),
  )
