-- ===== src/Scheduler/Worker.antt =====
-- `worker` of include/tateyama/task_scheduler/impl/worker.h: how a worker gets its initial tasks and
-- takes its next task. What a task does to the system is not modelled: a worker's context lists the
-- tasks that it has executed.
pub mod Tasks
use tateyama.Base.{
  ℕ, zero, suc, ◌+◌, ◌-◌, ◌*◌, ◌<◌, Bool, true, false, ◌==◌, ltb, not, ◌&&◌, if◌then◌else◌, Option,
  none, some, List, [], ◌∷◌, ◌++◌, length, get_elem?, set,
}
use tateyama.Scheduler.Queue
use tateyama.Scheduler.Queue.{ConcurrentQueue, BasicQueue, push, try_pop, reconstruct}
use tateyama.Scheduler.Notifier.{PeriodicNotifier, count_up}

pub record WorkerStat : Type 0 where
  pub count : ℕ
  pub steal : ℕ
  pub sticky : ℕ
  pub wakeup_run : ℕ
  pub suspend : ℕ

pub record SchedulerConfig : Type 0 where
  pub thread_count : ℕ
  pub stealing_enabled : Bool
  pub stealing_wait : ℕ
  pub busy_worker : Bool
  pub worker_try_count : ℕ

-- `next` of the worker
unfoldable pub next_queue : ℕ → ℕ → ℕ
next_queue sz current = if current == (sz - 1) then 0 else current + 1

module _ {T : Type 0} (c : ConcurrentQueue T) (is_sticky : T → Bool) where
  -- The context of a worker, its statistics, and the tasks that it has executed, the last one first.
  pub record Context : Type 0 where
    pub last_steal_from : ℕ
    pub busy_working : Bool
    pub notifier : PeriodicNotifier
    pub stat : WorkerStat
    pub executed : List T

  -- the loop of `init`, with fuel
  unfoldable pub distribute :
      ℕ → c.Q → BasicQueue c → BasicQueue c → Option (c.Q × BasicQueue c × BasicQueue c)
  unfolding push
  distribute zero s q sq = none
  distribute (suc fuel) s q sq = elim (c.try_pop s) [
    | none ↦ some (s, q, sq)
    | some (t, s') ↦
        (let to_sticky = distribute fuel s' q (push c sq t) in
          let to_local = distribute fuel s' (push c q t) sq in
          if is_sticky t then to_sticky else to_local)
  ]

  -- `init`, on the initial tasks and the two queues of its index
  unfoldable pub init :
      c.Q → BasicQueue c → BasicQueue c → Option (c.Q × BasicQueue c × BasicQueue c)
  unfolding distribute reconstruct
  init s q sq = distribute (suc (length (c.contents s))) s (reconstruct c q) (reconstruct c sq)

  unfoldable pub execute_task : T → Context → Context
  execute_task t x = record x {
    busy_working = true;
    stat = record (x.stat) {
      count = x.stat.count + 1;
      wakeup_run = if x.busy_working then x.stat.wakeup_run else x.stat.wakeup_run + 1;
    };
    executed = t ∷ x.executed;
  }

  -- `none` where it answers false
  unfoldable pub try_process : Context → BasicQueue c → Option (Context × BasicQueue c)
  unfolding execute_task try_pop
  try_process x q =
      if q.is_active
      then elim (try_pop c q) [ none ↦ none | some (t, q') ↦ some (execute_task t x, q') ]
      else none

  pub record Local : Type 0 where
    pub context : Context
    pub queue : BasicQueue c
    pub sticky_queue : BasicQueue c

  unfoldable pub try_sticky : Local → Option Local
  unfolding try_process
  try_sticky l = elim (try_process l.context l.sticky_queue) [
    | none ↦ none
    | some (x, sq) ↦ some (record l {
      context = record x { stat = record (x.stat) { sticky = x.stat.sticky + 1 } };
      sticky_queue = sq;
    })
  ]

  unfoldable pub try_local : Local → Option Local
  unfolding try_process
  try_local l = elim (try_process l.context l.queue) [
    | none ↦ none
    | some (x, q) ↦ some (record l { context = x; queue = q })
  ]

  -- the first of two tries, of which the second is made only where the first finds nothing
  abbrev pub first_of : Option Local → Option Local → Local → Bool × Local
  first_of (some l') u l = (true, l')
  first_of none (some l') l = (true, l')
  first_of none none l = (false, l)

  unfoldable pub try_local_and_sticky : Local → Bool × Local
  unfolding try_sticky try_local count_up
  try_local_and_sticky l =
      let (local_first, notifier) = count_up l.context.notifier in
      let l' = record l { context = record (l.context) { notifier = notifier } } in
      if local_first
      then first_of (try_local l') (try_sticky l') l'
      else first_of (try_sticky l') (try_local l') l'

  -- the loop that tries again before stealing
  unfoldable pub try_again : ℕ → Local → Bool × Local
  unfolding try_local_and_sticky
  try_again zero l = (false, l)
  try_again (suc n) l =
      let (done, l') = try_local_and_sticky l in
      let rest = try_again n l' in if done then (true, l') else rest

  -- the loop of `steal_and_execute`, with fuel; no queue at an index is one that is not active
  unfoldable pub steal_loop :
      ℕ → ℕ → ℕ → Context → List (BasicQueue c) → Option (Bool × Context × List (BasicQueue c))
  unfolding next_queue try_process
  steal_loop zero end' idx x queues = none
  steal_loop (suc fuel) end' idx x queues =
      let sz = length queues in
      let rest = steal_loop fuel end' (next_queue sz idx) x queues in
      let onward = if next_queue sz idx == end' then some (false, x, queues) else rest in
      elim (get_elem? queues idx) [
        | none ↦ onward
        | some tgt ↦ elim (try_process (record x { last_steal_from = idx }) tgt) [
          | some (x', tgt') ↦ some (true, x', set queues idx tgt')
          | none ↦ onward
        ]
      ]

  unfoldable pub steal_and_execute :
      Context → List (BasicQueue c) → Option (Bool × Context × List (BasicQueue c))
  unfolding steal_loop next_queue
  steal_and_execute x queues =
      let start = next_queue (length queues) x.last_steal_from in
      steal_loop (length queues) start start x queues

  -- the count of empty work and the context after `suspend_worker_if_needed`, and whether it suspends
  unfoldable pub suspend_worker_if_needed : SchedulerConfig → ℕ → Context → Bool × ℕ × Context
  suspend_worker_if_needed cfg empty_work_count x =
      if cfg.busy_worker
      then (false, empty_work_count, x)
      else if ltb cfg.worker_try_count (empty_work_count + 1)
      then (
        true,
        0,
        record x { busy_working = false; stat = record (x.stat) { suspend = x.stat.suspend + 1 } },
      )
      else (false, empty_work_count + 1, x)

  -- The queues of all workers and the context of one of them, which is at `index`.
  pub record Workers : Type 0 where
    pub context : Context
    pub queues : List (BasicQueue c)
    pub sticky_queues : List (BasicQueue c)

  abbrev put_back : ℕ → Workers → Local → Workers
  put_back index w l = record {
    context = l.context;
    queues = set w.queues index l.queue;
    sticky_queues = set w.sticky_queues index l.sticky_queue;
  }

  unfoldable pub process_next : SchedulerConfig → ℕ → Workers → Option (Bool × Workers)
  unfolding try_local_and_sticky try_again steal_and_execute
  process_next cfg index w = elim (get_elem? w.queues index) [
    | none ↦ none
    | some q ↦ elim (get_elem? w.sticky_queues index) [
      | none ↦ none
      | some sq ↦
          (let (done, l) =
              try_local_and_sticky (record { context = w.context; queue = q; sticky_queue = sq }) in
            let (again, l') = try_again (cfg.stealing_wait * cfg.thread_count) l in
            let w' = put_back index w l' in
            let stolen = steal_and_execute w'.context w'.queues in
            if done
            then some (true, put_back index w l)
            else if cfg.stealing_enabled
            then (if again then some (true, w') else elim stolen [
              | none ↦ none
              | some (false, x, qs) ↦ some (false, w')
              | some (true, x, qs) ↦ some (
                true,
                record w' {
                  context = record x { stat = record (x.stat) { steal = x.stat.steal + 1 } };
                  queues = qs;
                },
              )
            ])
            else some (false, put_back index w l))
    ]
  ]
