-- ===== src/Scheduler/Selection.antt =====
-- How the scheduler chooses a worker: include/tateyama/task_scheduler/scheduler.h.
pub mod Suspended
use tateyama.Base.{
  ℕ, zero, suc, ◌+◌, ◌-◌, ◌%◌, ◌^◌, ◌≤◌, ◌<◌, ◌≡◌, ◌≢◌, refl, Bool, true, false, ◌==◌, not,
  if◌then◌else◌, Option, none, some, arith, Bool-cases,
}
use tateyama.Base.Words.{add_size}

-- The scheduler's counter, and the preferred worker of the calling thread; `none` is `undefined`.
pub record Preference : Type 0 where
  pub next_worker_index_before_modulo : ℕ
  pub index_for_this_thread : Option ℕ

unfoldable pub next_worker : ℕ → Preference → ℕ × Preference
next_worker size p =
    let n = p.next_worker_index_before_modulo in
    (n % size, record p { next_worker_index_before_modulo = add_size n 1 })

unfoldable pub set_preferred_worker_for_current_thread : ℕ → Option ℕ → Preference → ℕ × Preference
unfolding next_worker
set_preferred_worker_for_current_thread size (some index) p =
    (index, record p { index_for_this_thread = some index })
set_preferred_worker_for_current_thread size none p = elim p.index_for_this_thread [
  | some index ↦ (index, p)
  | none ↦
      (let (index, q) = next_worker size p in
        (index, record q { index_for_this_thread = some index }))
]

unfoldable pub preferred_worker_for_current_thread : ℕ → Preference → ℕ × Preference
unfolding set_preferred_worker_for_current_thread
preferred_worker_for_current_thread size p = set_preferred_worker_for_current_thread size none p

pub data SchedulePolicyKind : Type 0 where
  undefined suspended_worker : SchedulePolicyKind

-- `next`
unfoldable pub next : ℕ → ℕ → ℕ
next index size = if index == (size - 1) then 0 else index + 1

-- the loop that looks for a suspended worker, with fuel
unfoldable pub find_suspended : ℕ → ℕ → (ℕ → Bool) → ℕ → ℕ → Option ℕ
unfolding next
find_suspended zero size active base cur = none
find_suspended (suc fuel) size active base cur =
    let rest = find_suspended fuel size active base (next cur size) in
    if not (active cur) then some cur else if next cur size == base then some base else rest

-- `select_worker`; `active` tells which of the threads are
unfoldable pub select_worker :
    ℕ → Bool → (ℕ → Bool) → SchedulePolicyKind → Preference → Option (ℕ × Preference)
unfolding find_suspended next preferred_worker_for_current_thread next_worker
select_worker size use_preferred active policy p =
    let (index, q) =
      if use_preferred then preferred_worker_for_current_thread size p else next_worker size p in
    elim policy [
      | undefined ↦ some (index, q)
      | suspended_worker ↦
          elim (find_suspended size size active (next index size) (next index size)) [
            | none ↦ none
            | some cur ↦ some (cur, q)
          ]
    ]
