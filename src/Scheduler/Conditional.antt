-- ===== src/Scheduler/Conditional.antt =====
-- `conditional_worker` of include/tateyama/task_scheduler/impl/conditional_worker.h. A check that
-- throws counts as false; `check` is what the checks of the tasks answer during the pass.
use tateyama.Base.{
  ℕ, zero, suc, ◌<◌, ◌≡◌, ◌↔◌, refl, sym, ap, ◌∙◌, inl, inr, ◌⊎◌, Bool, true, false, if◌then◌else◌,
  Option, none, some, List, [], ◌∷◌, ◌++◌, length, arith, append_assoc, append-nil, Bool-cases,
  Option-cases,
}
use tateyama.Scheduler.Queue.{
  ConcurrentQueue, BasicQueue, tasks, push, try_pop, tasks-push, try_pop-tasks, try_pop-empty,
}
use tateyama.Scheduler.Worker.Tasks.{only}

module _ {T : Type 0} (c : ConcurrentQueue T) (check : T → Bool) where
  -- the queue, the negatives, and the tasks that were executed
  pub record Pass : Type 0 where
    pub queue : BasicQueue c
    pub negatives : List T
    pub executed : List T

  -- the loop of `process_next`, with fuel
  unfoldable pub take_all : ℕ → Pass → Option Pass
  unfolding try_pop
  take_all zero p = none
  take_all (suc fuel) p = elim (try_pop c p.queue) [
    | none ↦ some p
    | some (t, q) ↦
        (let positive = take_all fuel (record p { queue = q; executed = p.executed ++ t ∷ [] }) in
          let negative =
            take_all fuel (record p { queue = q; negatives = p.negatives ++ t ∷ [] }) in
          if check t then positive else negative)
  ]

  unfoldable pub push_all : BasicQueue c → List T → BasicQueue c
  unfolding push
  push_all q [] = q
  push_all q (t ∷ ts) = push_all (push c q t) ts

  abbrev is_empty : List T → Bool
  is_empty [] = true
  is_empty (t ∷ ts) = false

  -- the answer, the queue, and the tasks that were executed
  unfoldable pub process_next : BasicQueue c → Option (Bool × BasicQueue c × List T)
  unfolding take_all push_all
  process_next q =
      elim (take_all (suc (length (tasks c q)))
        (record { queue = q; negatives = []; executed = [] })) [
          | none ↦ none
          | some p ↦
              (if is_empty p.negatives
                then some (false, p.queue, p.executed)
                else some (true, push_all p.queue p.negatives, p.executed))
        ]

  tasks-push_all : (q : BasicQueue c) (ts : List T) → tasks c (push_all q ts) ≡ tasks c q ++ ts
  unfolding push_all
  tasks-push_all q [] = sym (append-nil (tasks c q))
  tasks-push_all q (t ∷ ts) =
      tasks-push_all (push c q t) ts
      ∙ ap (λ (xs : List T). xs ++ ts) (tasks-push c q t)
      ∙ append_assoc (tasks c q) (t ∷ []) ts

  record Taken (ts : List T) (p r : Pass) : Type 0 where
    nothing_left : tasks c (r.queue) ≡ []
    kept : r.negatives ≡ p.negatives ++ only check false ts
    ran : r.executed ≡ p.executed ++ only check true ts

  take_all-Taken :
      (fuel : ℕ) (p : Pass)
      → length (tasks c p.queue) < fuel
      → (r : Pass) × (take_all fuel p ≡ some r) × Taken (tasks c p.queue) p r
  unfolding take_all
  take_all-Taken zero p h = absurd (omega arith)
  take_all-Taken (suc fuel) p h = elim (Option-cases (try_pop c p.queue)) [
    | inl n ↦
        (let empty = try_pop-empty c p.queue n in
          (
            p,
            rw (take_all, n) refl,
            record {
              nothing_left = empty;
              kept = rw empty (sym (append-nil p.negatives));
              ran = rw empty (sym (append-nil p.executed));
            },
          ))
    | inr ((t, q), n) ↦
        (let popped = try_pop-tasks c p.queue {t = t} {q' = q} n in
          let shorter : length (tasks c q) < fuel =
            omega (arith, ap (λ (xs : List T). length xs) popped) in
          elim (Bool-cases (check t)) [
            | inl b ↦
                (let (r, run, d) =
                    take_all-Taken fuel (record p { queue = q; executed = p.executed ++ t ∷ [] })
                      shorter in
                  (
                    r,
                    rw (take_all, n, b) run,
                    record {
                      nothing_left = d.nothing_left;
                      kept = rw (popped, b) d.kept;
                      ran =
                          rw (popped, b)
                            (d.ran
                              ∙ append_assoc p.executed (t ∷ []) (only check true (tasks c q)));
                    },
                  ))
            | inr b ↦
                (let (r, run, d) =
                    take_all-Taken fuel (record p { queue = q; negatives = p.negatives ++ t ∷ [] })
                      shorter in
                  (
                    r,
                    rw (take_all, n, b) run,
                    record {
                      nothing_left = d.nothing_left;
                      kept =
                          rw (popped, b)
                            (d.kept
                              ∙ append_assoc p.negatives (t ∷ []) (only check false (tasks c q)));
                      ran = rw (popped, b) d.ran;
                    },
                  ))
          ])
  ]

  -- A pass over the conditional tasks ends. It runs those whose check answers true, in order, and
  -- leaves the others in the queue, in order; it answers whether there are any.
  pub process_next-tasks :
      (q : BasicQueue c)
      → (answer : Bool) × (q' : BasicQueue c) × (process_next q
          ≡ some (answer, q', only check true (tasks c q)))
        × (tasks c q' ≡ only check false (tasks c q))
        × ((answer ≡ false) ↔ (tasks c q' ≡ []))
  unfolding process_next
  process_next-tasks q =
      let (r, run, d) =
        take_all-Taken (suc (length (tasks c q)))
          (record { queue = q; negatives = []; executed = [] }) (omega arith) in
      finish r run d (list_cases r.negatives)
    where
      Ends : Type 0
      Ends =
          (answer : Bool) × (q' : BasicQueue c) × (process_next q
            ≡ some (answer, q', only check true (tasks c q)))
          × (tasks c q' ≡ only check false (tasks c q))
          × ((answer ≡ false) ↔ (tasks c q' ≡ []))

      list_cases : (ts : List T) → (ts ≡ []) ⊎ ((u : T) × (us : List T) × (ts ≡ u ∷ us))
      list_cases [] = inl refl
      list_cases (u ∷ us) = inr (u, us, refl)

      finish :
          (r : Pass)
          → take_all
              (suc (length (tasks c q)))
              (record { queue = q; negatives = []; executed = [] })
            ≡ some r
          → Taken (tasks c q) (record { queue = q; negatives = []; executed = [] }) r
          → ((r.negatives ≡ []) ⊎ ((u : T) × (us : List T) × (r.negatives ≡ u ∷ us)))
          → Ends
      finish r run d (inl e) = (
        false,
        r.queue,
        rw (process_next, run, e, d.ran) refl,
        d.nothing_left ∙ sym e ∙ d.kept,
        ((λ _. d.nothing_left), (λ _. refl)),
      )
      finish r run d (inr (u, us, e)) =
          let back : tasks c (push_all r.queue r.negatives) ≡ r.negatives =
            tasks-push_all r.queue r.negatives
            ∙ ap (λ (xs : List T). xs ++ r.negatives) d.nothing_left in
          (
            true,
            push_all r.queue r.negatives,
            rw (process_next, run, e, d.ran) refl,
            back ∙ d.kept,
            (
              (λ f. absurd (ground (arith, f))),
              (λ f. absurd (let none_kept = sym e ∙ sym back ∙ f in ground (arith, none_kept))),
            ),
          )
