-- ===== src/Scheduler/Selection/Suspended.antt =====
-- `select_worker` chooses a suspended worker if there is one.
use mathlib.Core.Path.{subst}
use native.Mathlib.Nat.{mod-lt}
use native.Mathlib.Decide.{dec_lt}
use tateyama.Base.{
  ℕ, zero, suc, ◌+◌, ◌-◌, ◌%◌, ◌<◌, ◌≡◌, refl, ap, sym, ◌∙◌, inl, inr, Bool, true, false, ◌==◌, ltb,
  leb, if◌then◌else◌, some, arith, Bool-cases, Option-cases,
}
use tateyama.Scheduler.Selection.{
  Preference, suspended_worker, next, find_suspended, select_worker, next_worker,
  preferred_worker_for_current_thread, set_preferred_worker_for_current_thread,
}

module _ (size : ℕ) (active : ℕ → Bool) (base : ℕ) (inside : base < size) where
  -- the worker `k` places after `base`
  abbrev place : ℕ → ℕ
  place k = if ltb (base + k) size then base + k else (base + k) - size

  next-place : (k : ℕ) → k < size → next (place k) size ≡ place (k + 1)
  unfolding next
  next-place k h = ground arith

  abbrev Found : ℕ → Type 0
  Found r = (r < size) × (active r ≡ true → (i : ℕ) → i < size → active i ≡ true)

  abbrev places_after : ℕ → ℕ
  places_after i = if leb base i then i - base else i + size - base

  place-places_after : (i : ℕ) → i < size → (place (places_after i) ≡ i) × (places_after i < size)
  place-places_after i h = ground arith

  -- all have been asked
  all_active : ((j : ℕ) → j < size → active (place j) ≡ true) → (i : ℕ) → i < size → active i ≡ true
  all_active seen i h =
      let (back, near) = place-places_after i h in sym (ap active back) ∙ seen (places_after i) near

  one_more :
      (k : ℕ)
      → active (place k) ≡ true
      → ((j : ℕ) → j < k → active (place j) ≡ true)
      → (j : ℕ) → j < k + 1
      → active (place j) ≡ true
  one_more k t seen j l = elim (dec_lt j k) [
    | yes less ↦ seen j less
    | no more ↦ (let same : j ≡ k = omega arith in rw same t)
  ]

  -- back at `base`, the loop has passed every worker
  round : (k : ℕ) → k < size → next (place k) size == base ≡ true → (j : ℕ) → j < size → j < k + 1
  unfolding next
  round k h last j l = ground (arith, last)

  not_round : (k : ℕ) → k < size → next (place k) size == base ≡ false → k + 1 < size
  unfolding next
  not_round k h more = ground (arith, more)

  find_suspended-Found :
      (fuel k : ℕ)
      → fuel + k ≡ size
      → k < size
      → ((j : ℕ) → j < k → active (place j) ≡ true)
      → (r : ℕ) × (find_suspended fuel size active base (place k) ≡ some r) × Found r
  unfolding find_suspended
  find_suspended-Found zero k e h seen = absurd (omega arith)
  find_suspended-Found (suc fuel) k e h seen = elim (Bool-cases (active (place k))) [
    | inr f ↦ (place k, rw f refl, (ground arith, λ t. absurd (ground (arith, t, f))))
    | inl t ↦
        (let up_to : (j : ℕ) → j < k + 1 → active (place j) ≡ true = λ j l. one_more k t seen j l in
          elim (Bool-cases (next (place k) size == base)) [
            | inl last ↦ (
              base,
              rw (t, last) refl,
              (inside, λ _. all_active (λ j l. up_to j (round k h last j l))),
            )
            | inr more ↦
                (let (r, found, good) =
                    find_suspended-Found fuel (k + 1) (omega arith) (not_round k h more) up_to in
                  (r, rw (t, more, next-place k h) found, good))
          ])
  ]

  -- with a suspended worker among them, the loop finds one, within `size` rounds
  pub find_suspended_lem : (r : ℕ) × (find_suspended size size active base base ≡ some r) × Found r
  find_suspended_lem =
      let start : place 0 ≡ base = ground arith in
      subst (λ b. (r : ℕ) × (find_suspended size size active base b ≡ some r) × Found r) start
        (find_suspended-Found size 0 (omega arith) (omega arith) (λ j l. absurd (omega arith)))

next-inside : (size index : ℕ) → index < size → next index size < size
unfolding next
next-inside size index h = ground arith

preferred-inside :
    (size : ℕ) (p : Preference)
    → 0 < size
    → ((i : ℕ) → p.index_for_this_thread ≡ some i → i < size)
    → (preferred_worker_for_current_thread size p).0 < size
unfolding preferred_worker_for_current_thread set_preferred_worker_for_current_thread next_worker
preferred-inside size p pos known = elim (Option-cases p.index_for_this_thread) [
  | inl h ↦ rw h (mod-lt p.next_worker_index_before_modulo pos)
  | inr (i, h) ↦ rw h (known i h)
]

-- A task for a suspended worker is given, in at most `size` rounds of the search, to a worker of the
-- scheduler, and to one that is not active if there is any.
pub select_worker-suspended :
    (size : ℕ) (use_preferred : Bool) (active : ℕ → Bool) (p : Preference)
    → 0 < size
    → ((i : ℕ) → p.index_for_this_thread ≡ some i → i < size)
    → (r : ℕ) × (q : Preference) × (select_worker size use_preferred active suspended_worker p
        ≡ some (r, q))
      × (r < size)
      × (active r ≡ true → (i : ℕ) → i < size → active i ≡ true)
unfolding select_worker
select_worker-suspended size false active p pos known =
    let index = p.next_worker_index_before_modulo % size in
    let (r, found, (inside, good)) =
      find_suspended_lem size active (next index size)
        (next-inside size index (mod-lt p.next_worker_index_before_modulo pos)) in
    (r, (next_worker size p).1, rw (select_worker, found) refl, inside, good)
select_worker-suspended size true active p pos known =
    let (index, q) = preferred_worker_for_current_thread size p in
    let (r, found, (inside, good)) =
      find_suspended_lem size active (next index size)
        (next-inside size index (preferred-inside size p pos known)) in
    (r, q, rw (select_worker, found) refl, inside, good)
