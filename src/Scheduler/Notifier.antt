-- ===== src/Scheduler/Notifier.antt =====
-- `periodic_notifier` of include/tateyama/task_scheduler/impl/periodic_notifier.h, which tells a
-- worker when to look at its local queue first.
use tateyama.Base.{
  ℕ, zero, suc, ◌+◌, ◌-◌, ◌*◌, ◌≤◌, ◌<◌, ◌≡◌, refl, ap, Bool, true, false, leb, if◌then◌else◌,
  arith, inl, inr, Bool-cases,
}

pub record PeriodicNotifier : Type 0 where
  pub notifications : ℕ
  pub period : ℕ
  pub current : ℕ

unfoldable pub init : ℕ → ℕ → PeriodicNotifier
init notifications period = record { notifications = notifications; period = period; current = 0 }

-- the counts stay far below 2 ^ 64
unfoldable pub count_up : PeriodicNotifier → Bool × PeriodicNotifier
count_up p =
    let current = p.current + p.notifications in
    if leb p.period current
    then (true, record p { current = current - p.period })
    else (false, record p { current = current })

-- the number of notifications in `n` calls, and the notifier after them
unfoldable pub count_times : ℕ → PeriodicNotifier → ℕ × PeriodicNotifier
unfolding count_up
count_times zero p = (0, p)
count_times (suc n) p =
    let (notified, p') = count_up p in
    let (k, q) = count_times n p' in ((if notified then k + 1 else k), q)

pub record IsSound (p : PeriodicNotifier) : Type 0 where
  pub ratio : p.notifications ≤ p.period
  pub below : p.current < p.period

count_up-true :
    (p : PeriodicNotifier)
    → IsSound p
    → (count_up p).0 ≡ true
    → IsSound (count_up p).1 × ((count_up p).1.current + p.period ≡ p.current + p.notifications)
unfolding count_up
count_up-true p v h = ground (arith, v)

count_up-false :
    (p : PeriodicNotifier)
    → IsSound p
    → (count_up p).0 ≡ false
    → IsSound (count_up p).1 × ((count_up p).1.current ≡ p.current + p.notifications)
unfolding count_up
count_up-false p v h = ground (arith, v)

count_up-same :
    (p : PeriodicNotifier)
    → ((count_up p).1.period ≡ p.period) × ((count_up p).1.notifications ≡ p.notifications)
unfolding count_up
count_up-same p = ground arith

-- In `n` calls a notifier gives as many notifications as fit: what it has counted up is the period
-- for each notification, and less than a period is left.
pub count_times-balance :
    (n : ℕ) (p : PeriodicNotifier)
    → IsSound p
    → let (k, q) = count_times n p in
      (k * p.period + q.current ≡ p.current + n * p.notifications) × (q.current < p.period)
unfolding count_times
count_times-balance zero p v = ground (arith, v)
count_times-balance (suc n) p v = elim (Bool-cases (count_up p).0) [
  | inl t ↦
      (let (s, e) = count_up-true p v t in
        let (b, l) = count_times-balance n (count_up p).1 s in
        rw t (grind (arith, b, l, e, count_up-same p), grind (arith, b, l, e, count_up-same p)))
  | inr t ↦
      (let (s, e) = count_up-false p v t in
        let (b, l) = count_times-balance n (count_up p).1 s in
        rw t (grind (arith, b, l, e, count_up-same p), grind (arith, b, l, e, count_up-same p)))
]

same_quotient : (k n c p : ℕ) → c < p → k * p + c ≡ n * p → (k ≡ n) × (c ≡ 0)
same_quotient zero zero c p h e = (refl, omega arith)
same_quotient zero (suc n) c p h e = absurd (grind arith)
same_quotient (suc k) zero c p h e = absurd (grind arith)
same_quotient (suc k) (suc n) c p h e =
    let (same, rest) = same_quotient k n c p h (grind arith) in (ap suc same, rest)

-- From the start, with `notifications` at most `period`: by the time that `period` calls are over,
-- exactly `notifications` of them have notified, and the count starts again.
pub period_notifies :
    (notifications period : ℕ)
    → 0 < period
    → notifications ≤ period
    → let (k, q) = count_times period (init notifications period) in
      (k ≡ notifications) × (q.current ≡ 0)
unfolding init
period_notifies notifications period pos h =
    let start = init notifications period in
    let (b, l) = count_times-balance period start (omega arith) in
    same_quotient (count_times period start).0 notifications (count_times period start).1.current
      period l (grind (arith, b))
