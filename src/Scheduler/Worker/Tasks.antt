-- ===== src/Scheduler/Worker/Tasks.antt =====
-- No task is lost or run twice on its way through a worker.
use tateyama.Base.{
  ℕ, zero, suc, ◌<◌, ◌≡◌, refl, sym, ap, ◌∙◌, inl, inr, ◌⊎◌, Bool, true, false, if◌then◌else◌,
  Option, none, some, List, [], ◌∷◌, ◌++◌, length, arith, append_assoc, append-nil, Bool-cases,
  Option-cases,
}
use tateyama.Scheduler.Queue.{
  ConcurrentQueue, BasicQueue, tasks, push, try_pop, reconstruct, tasks-push, try_pop-tasks,
  try_pop-empty,
}
use tateyama.Scheduler.Notifier.{count_up}
use tateyama.Scheduler.Worker.{
  distribute, init, Context, Local, execute_task, try_process, try_sticky, try_local,
  try_local_and_sticky, first_of,
}

-- the tasks for which the test answers `b`, in order
abbrev pub only {ℓ} : {T : Type ℓ} → (T → Bool) → Bool → List T → List T
only p b [] = []
only p b (t ∷ ts) =
    if p t
    then (if b then t ∷ only p b ts else only p b ts)
    else (if b then only p b ts else t ∷ only p b ts)

module _ {T : Type 0} (c : ConcurrentQueue T) (is_sticky : T → Bool) where
  -- what `distribute` leaves
  record Distributed (ts : List T) (q sq : BasicQueue c) (o : c.Q × BasicQueue c × BasicQueue c)
      : Type 0 where
    emptied : c.contents (o.0) ≡ []
    local_tasks : tasks c (o.1) ≡ tasks c q ++ only is_sticky false ts
    sticky_tasks : tasks c (o.2) ≡ tasks c sq ++ only is_sticky true ts
    same_active : (o.1.is_active ≡ q.is_active) × (o.2.is_active ≡ sq.is_active)

  sticky-Distributed :
      (t : T) {ts : List T} {q sq : BasicQueue c} {o : c.Q × BasicQueue c × BasicQueue c}
      → is_sticky t ≡ true
      → Distributed ts q (push c sq t) o
      → Distributed (t ∷ ts) q sq o
  unfolding push
  sticky-Distributed t {ts} {q} {sq} b d = record {
    emptied = d.emptied;
    local_tasks = rw b d.local_tasks;
    sticky_tasks = rw b (
        d.sticky_tasks
        ∙ ap (λ (xs : List T). xs ++ only is_sticky true ts) (tasks-push c sq t)
        ∙ append_assoc (tasks c sq) (t ∷ []) (only is_sticky true ts));
    same_active = d.same_active;
  }

  local-Distributed :
      (t : T) {ts : List T} {q sq : BasicQueue c} {o : c.Q × BasicQueue c × BasicQueue c}
      → is_sticky t ≡ false
      → Distributed ts (push c q t) sq o
      → Distributed (t ∷ ts) q sq o
  unfolding push
  local-Distributed t {ts} {q} {sq} b d = record {
    emptied = d.emptied;
    local_tasks = rw b (
        d.local_tasks
        ∙ ap (λ (xs : List T). xs ++ only is_sticky false ts) (tasks-push c q t)
        ∙ append_assoc (tasks c q) (t ∷ []) (only is_sticky false ts));
    sticky_tasks = rw b d.sticky_tasks;
    same_active = d.same_active;
  }

  distribute-Distributed :
      (fuel : ℕ) (s : c.Q) (q sq : BasicQueue c)
      → length (c.contents s) < fuel
      → (o : c.Q × BasicQueue c × BasicQueue c) × (distribute c is_sticky fuel s q sq ≡ some o)
        × Distributed (c.contents s) q sq o
  unfolding distribute
  distribute-Distributed zero s q sq h = absurd (omega arith)
  distribute-Distributed (suc fuel) s q sq h = elim (Option-cases (c.try_pop s)) [
    | inl n ↦
        (let empty = c.try_pop-none s n in
          (
            (s, q, sq),
            rw (distribute, n) refl,
            record {
              emptied = empty;
              local_tasks = rw empty (sym (append-nil (tasks c q)));
              sticky_tasks = rw empty (sym (append-nil (tasks c sq)));
              same_active = (refl, refl);
            },
          ))
    | inr ((t, s'), n) ↦
        (let popped = c.try_pop-some s t s' n in
          let shorter : length (c.contents s') < fuel =
            omega (arith, ap (λ (xs : List T). length xs) popped) in
          elim (Bool-cases (is_sticky t)) [
            | inl b ↦
                (let (o, run, d) = distribute-Distributed fuel s' q (push c sq t) shorter in
                  (
                    o,
                    rw (distribute, n, b) run,
                    rw popped (sticky-Distributed t {q = q} {sq = sq} {o = o} b d),
                  ))
            | inr b ↦
                (let (o, run, d) = distribute-Distributed fuel s' (push c q t) sq shorter in
                  (
                    o,
                    rw (distribute, n, b) run,
                    rw popped (local-Distributed t {q = q} {sq = sq} {o = o} b d),
                  ))
          ])
  ]

  -- The loop of `init` over the initial tasks of a worker ends, and after it each of them is in the
  -- sticky queue or in the local queue, as the task says, once, and in the order of submission; no
  -- initial task is left.
  pub init-tasks :
      (s : c.Q) (q sq : BasicQueue c)
      → (s' : c.Q) × (q' : BasicQueue c) × (sq' : BasicQueue c) × (init c is_sticky s q sq
          ≡ some (s', q', sq'))
        × (c.contents s' ≡ [])
        × (tasks c q' ≡ only is_sticky false (c.contents s))
        × (tasks c sq' ≡ only is_sticky true (c.contents s))
  unfolding init reconstruct
  init-tasks s q sq =
      let ((s', q', sq'), run, d) =
        distribute-Distributed (suc (length (c.contents s))) s (reconstruct c q) (reconstruct c sq)
          (omega arith) in
      (
        s',
        q',
        sq',
        run,
        d.emptied,
        d.local_tasks
            ∙ ap (λ (xs : List T). xs ++ only is_sticky false (c.contents s)) c.contents-fresh,
        d.sticky_tasks
            ∙ ap (λ (xs : List T). xs ++ only is_sticky true (c.contents s)) c.contents-fresh,
      )

  -- what one `try_process` of an active queue does
  try_process-some :
      (x : Context c is_sticky) (q : BasicQueue c) {x' : Context c is_sticky} {q' : BasicQueue c}
      → try_process c is_sticky x q ≡ some (x', q')
      → (t : T) × (x'.executed ≡ t ∷ x.executed) × (tasks c q ≡ t ∷ tasks c q')
  unfolding try_process execute_task
  try_process-some x q {x'} {q'} e = elim (Option-cases (try_pop c q)) [
    | inl n ↦ absurd (ground (arith, e, n))
    | inr ((t, r), n) ↦
        (let popped = try_pop-tasks c q {t = t} {q' = r} n in
          (t, ground (arith, e, n), ground (arith, e, n, popped)))
  ]

  try_process-none :
      (x : Context c is_sticky) (q : BasicQueue c)
      → try_process c is_sticky x q ≡ none
      → q.is_active ≡ true
      → tasks c q ≡ []
  unfolding try_process
  try_process-none x q e a = elim (Option-cases (try_pop c q)) [
    | inl n ↦ try_pop-empty c q n
    | inr ((t, r), n) ↦ absurd (ground (arith, e, n, a))
  ]

  -- One task moves from a queue of the worker to what it has executed.
  abbrev pub Takes : Local c is_sticky → Local c is_sticky → Type 0
  Takes l l' =
      (t : T) × (l'.context.executed ≡ t ∷ l.context.executed)
      × (((tasks c l.queue ≡ t ∷ tasks c l'.queue) × (l'.sticky_queue ≡ l.sticky_queue))
          ⊎ ((tasks c l.sticky_queue ≡ t ∷ tasks c l'.sticky_queue) × (l'.queue ≡ l.queue)))

  try_sticky-Takes :
      (l : Local c is_sticky) {l' : Local c is_sticky}
      → try_sticky c is_sticky l ≡ some l'
      → Takes l l'
  unfolding try_sticky
  try_sticky-Takes l {l'} e =
      elim (Option-cases (try_process c is_sticky l.context l.sticky_queue)) [
        | inl n ↦ absurd (ground (arith, e, n))
        | inr ((x, q), n) ↦
            (let (t, ran, popped) = try_process-some l.context l.sticky_queue {x' = x} {q' = q} n in
              (
                t,
                ground (arith, e, n, ran),
                inr (ground (arith, e, n, popped), ground (arith, e, n)),
              ))
      ]

  try_local-Takes :
      (l : Local c is_sticky) {l' : Local c is_sticky}
      → try_local c is_sticky l ≡ some l'
      → Takes l l'
  unfolding try_local
  try_local-Takes l {l'} e = elim (Option-cases (try_process c is_sticky l.context l.queue)) [
    | inl n ↦ absurd (ground (arith, e, n))
    | inr ((x, q), n) ↦
        (let (t, ran, popped) = try_process-some l.context l.queue {x' = x} {q' = q} n in
          (t, ground (arith, e, n, ran), inl (ground (arith, e, n, popped), ground (arith, e, n))))
  ]

  try_sticky-none :
      (l : Local c is_sticky)
      → try_sticky c is_sticky l ≡ none
      → l.sticky_queue.is_active ≡ true
      → tasks c l.sticky_queue ≡ []
  unfolding try_sticky
  try_sticky-none l e a = elim (Option-cases (try_process c is_sticky l.context l.sticky_queue)) [
    | inl n ↦ try_process-none l.context l.sticky_queue n a
    | inr ((x, q), n) ↦ absurd (ground (arith, e, n))
  ]

  try_local-none :
      (l : Local c is_sticky)
      → try_local c is_sticky l ≡ none
      → l.queue.is_active ≡ true
      → tasks c l.queue ≡ []
  unfolding try_local
  try_local-none l e a = elim (Option-cases (try_process c is_sticky l.context l.queue)) [
    | inl n ↦ try_process-none l.context l.queue n a
    | inr ((x, q), n) ↦ absurd (ground (arith, e, n))
  ]

  first_of-some :
      (o u : Option (Local c is_sticky)) (l : Local c is_sticky)
      → ((l' : Local c is_sticky) → o ≡ some l' → Takes l l')
      → ((l' : Local c is_sticky) → u ≡ some l' → Takes l l')
      → (first_of c is_sticky o u l).0 ≡ true
      → Takes l (first_of c is_sticky o u l).1
  first_of-some (some l') u l ho hu e = ho l' refl
  first_of-some none (some l') l ho hu e = hu l' refl
  first_of-some none none l ho hu e = absurd (ground (arith, e))

  first_of-none :
      (o u : Option (Local c is_sticky)) (l : Local c is_sticky)
      → (first_of c is_sticky o u l).0 ≡ false
      → (o ≡ none) × (u ≡ none) × ((first_of c is_sticky o u l).1 ≡ l)
  first_of-none (some l') u l e = absurd (ground (arith, e))
  first_of-none none (some l') l e = absurd (ground (arith, e))
  first_of-none none none l e = (refl, refl, refl)

  abbrev counted : Local c is_sticky → Local c is_sticky
  counted l = record l {
    context = record (l.context) { notifier = (count_up l.context.notifier).1 };
  }

  -- A worker that looks at its two queues executes one task, the first of one of them, or it leaves
  -- them as they are; it finds nothing only where each of the two is inactive or empty. This holds
  -- whichever queue the notifier puts first.
  pub try_local_and_sticky-tasks :
      (l : Local c is_sticky)
      → let (done, l') = try_local_and_sticky c is_sticky l in
        (done ≡ true → Takes l l')
        × (done ≡ false
            → (l'.context.executed ≡ l.context.executed)
              × (l'.queue ≡ l.queue)
              × (l'.sticky_queue ≡ l.sticky_queue)
              × (l.queue.is_active ≡ true → tasks c l.queue ≡ [])
              × (l.sticky_queue.is_active ≡ true → tasks c l.sticky_queue ≡ []))
  unfolding try_local_and_sticky
  try_local_and_sticky-tasks l = elim (Bool-cases (count_up l.context.notifier).0) [
    | inl b ↦ rw b (
      first_of-some (try_local c is_sticky (counted l)) (try_sticky c is_sticky (counted l))
          (counted l) (λ l' e. try_local-Takes (counted l) e)
          (λ l' e. try_sticky-Takes (counted l) e),
      λ e.
          let (f, g, same) =
            first_of-none (try_local c is_sticky (counted l)) (try_sticky c is_sticky (counted l))
              (counted l) e in
          (
            ap (λ (r : Local c is_sticky). r.context.executed) same,
            ap (λ (r : Local c is_sticky). r.queue) same,
            ap (λ (r : Local c is_sticky). r.sticky_queue) same,
            try_local-none (counted l) f,
            try_sticky-none (counted l) g,
          ),
    )
    | inr b ↦ rw b (
      first_of-some (try_sticky c is_sticky (counted l)) (try_local c is_sticky (counted l))
          (counted l) (λ l' e. try_sticky-Takes (counted l) e)
          (λ l' e. try_local-Takes (counted l) e),
      λ e.
          let (f, g, same) =
            first_of-none (try_sticky c is_sticky (counted l)) (try_local c is_sticky (counted l))
              (counted l) e in
          (
            ap (λ (r : Local c is_sticky). r.context.executed) same,
            ap (λ (r : Local c is_sticky). r.queue) same,
            ap (λ (r : Local c is_sticky). r.sticky_queue) same,
            try_local-none (counted l) g,
            try_sticky-none (counted l) f,
          ),
    )
  ]
