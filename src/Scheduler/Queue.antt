-- ===== src/Scheduler/Queue.antt =====
-- `basic_queue` of include/tateyama/task_scheduler/impl/queue.h. The concurrent queue within it, that
-- of a library, is an interface: first in, first out.
use tateyama.Base.{
  ◌≡◌, Bool, false, Option, none, some, List, [], ◌∷◌, ◌++◌, Option-cases, inl, inr, arith,
}

pub record ConcurrentQueue (T : Type 0) : Type 1 where
  pub Q : Type 0
  pub fresh : Q
  pub push : Q → T → Q
  pub try_pop : Q → Option (T × Q)
  pub contents : Q → List T
  pub contents-fresh : contents fresh ≡ []
  pub contents-push : (q : Q) (t : T) → contents (push q t) ≡ contents q ++ t ∷ []
  pub try_pop-none : (q : Q) → try_pop q ≡ none → contents q ≡ []
  pub try_pop-some :
      (q : Q) (t : T) (q' : Q) → try_pop q ≡ some (t, q') → contents q ≡ t ∷ contents q'

module _ {T : Type 0} (c : ConcurrentQueue T) where
  pub record BasicQueue : Type 0 where
    pub origin : c.Q
    pub is_active : Bool

  abbrev pub tasks : BasicQueue → List T
  tasks q = c.contents q.origin

  unfoldable pub push : BasicQueue → T → BasicQueue
  push q t = record q { origin = c.push q.origin t }

  unfoldable pub try_pop : BasicQueue → Option (T × BasicQueue)
  try_pop q = elim (c.try_pop q.origin) [
    | none ↦ none
    | some (t, o) ↦ some (t, record q { origin = o })
  ]

  unfoldable pub reconstruct : BasicQueue → BasicQueue
  reconstruct q = record q { origin = c.fresh }

  unfoldable pub deactivate : BasicQueue → BasicQueue
  deactivate q = record q { is_active = false }

  pub tasks-push : (q : BasicQueue) (t : T) → tasks (push q t) ≡ tasks q ++ t ∷ []
  unfolding push
  tasks-push q t = c.contents-push q.origin t

  pub try_pop-tasks :
      (q : BasicQueue) {t : T} {q' : BasicQueue} → try_pop q ≡ some (t, q') → tasks q ≡ t ∷ tasks q'
  unfolding try_pop
  try_pop-tasks q {t} {q'} e = elim (Option-cases (c.try_pop q.origin)) [
    | inl h ↦ absurd (ground (arith, h, e))
    | inr ((u, o), h) ↦ ground (arith, h, e, c.try_pop-some q.origin u o h)
  ]

  pub try_pop-empty : (q : BasicQueue) → try_pop q ≡ none → tasks q ≡ []
  unfolding try_pop
  try_pop-empty q e = elim (Option-cases (c.try_pop q.origin)) [
    | inl h ↦ c.try_pop-none q.origin h
    | inr ((t, o), h) ↦ absurd (ground (arith, h, e))
  ]
