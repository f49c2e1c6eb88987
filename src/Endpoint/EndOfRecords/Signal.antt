-- ===== src/Endpoint/EndOfRecords/Signal.antt =====
-- When the client is told the end of the records.
use tateyama.Base.{
  ℕ, ◌+◌, ◌≤◌, ◌<◌, ◌≡◌, refl, Bool, true, false, ◌&&◌, ◌||◌, ◌==◌, if◌then◌else◌, List, [], ◌∷◌,
  arith,
}
use tateyama.Endpoint.EndOfRecords.{
  ResultSet, result_set, acquire, write_complete, set_eor, notify_eor_conditional,
}

pub data Event : Type 0 where
  acquires completes ends : Event

unfoldable pub happen : Event → ResultSet → ResultSet
unfolding write_complete set_eor
happen acquires r = acquire r
happen completes r = write_complete r
happen ends r = set_eor r

unfoldable pub run_events : List Event → ResultSet → ResultSet
unfolding happen
run_events [] r = r
run_events (e ∷ es) r = run_events es (happen e r)

-- No writer is acquired at the end of the result set, and only a writer that was acquired completes.
abbrev pub MayHappen : Event → ResultSet → Type 0
MayHappen acquires r = r.eor ≡ false
MayHappen completes r = r.completed_writers < r.writers
MayHappen ends r = Unit

abbrev pub InOrder : List Event → ResultSet → Type 0
InOrder [] r = Unit
InOrder (e ∷ es) r = MayHappen e r × InOrder es (happen e r)

abbrev pub is_over : ResultSet → Bool
is_over r = (r.writers == r.completed_writers) && r.eor

record Told (r : ResultSet) : Type 0 where
  bounded : r.completed_writers ≤ r.writers
  flagged : r.notify_eor ≡ is_over r
  once : r.signals ≡ (if is_over r then 1 else 0)

happen-Told : (e : Event) (r : ResultSet) → Told r → MayHappen e r → Told (happen e r)
unfolding happen write_complete set_eor notify_eor_conditional
happen-Told acquires r t h = record {
  bounded = omega (arith, t.bounded);
  flagged = ground (arith, t.bounded, t.flagged);
  once = ground (arith, t.bounded, t.flagged, t.once);
}
happen-Told completes r t h = record {
  bounded = ground (arith, t.bounded, t.flagged);
  flagged = ground (arith, t.bounded, t.flagged);
  once = ground (arith, t.bounded, t.flagged, t.once);
}
happen-Told ends r t h = record {
  bounded = ground (arith, t.bounded, t.flagged);
  flagged = ground (arith, t.bounded, t.flagged);
  once = ground (arith, t.bounded, t.flagged, t.once);
}

run_events-Told : (es : List Event) (r : ResultSet) → Told r → InOrder es r → Told (run_events es r)
unfolding run_events
run_events-Told [] r t h = t
run_events-Told (e ∷ es) r t (h, hs) = run_events-Told es (happen e r) (happen-Told e r t h) hs

-- what the events come to, without the bookkeeping
abbrev pub count_acquires : List Event → ℕ
count_acquires [] = 0
count_acquires (acquires ∷ es) = count_acquires es + 1
count_acquires (completes ∷ es) = count_acquires es
count_acquires (ends ∷ es) = count_acquires es

abbrev pub count_completes : List Event → ℕ
count_completes [] = 0
count_completes (acquires ∷ es) = count_completes es
count_completes (completes ∷ es) = count_completes es + 1
count_completes (ends ∷ es) = count_completes es

abbrev pub has_end : List Event → Bool
has_end [] = false
has_end (acquires ∷ es) = has_end es
has_end (completes ∷ es) = has_end es
has_end (ends ∷ es) = true

-- the counters and the mark after an event
happen-fields :
    (e : Event) (r : ResultSet)
    → ((happen e r).writers ≡ r.writers + count_acquires (e ∷ []))
      × ((happen e r).completed_writers ≡ r.completed_writers + count_completes (e ∷ []))
      × ((happen e r).eor ≡ (r.eor || has_end (e ∷ [])))
unfolding happen write_complete set_eor notify_eor_conditional
happen-fields acquires r = (ground arith, ground arith, ground arith)
happen-fields completes r = (ground arith, ground arith, ground arith)
happen-fields ends r = (ground arith, ground arith, ground arith)

run_events-writers :
    (es : List Event) (r : ResultSet) → (run_events es r).writers ≡ r.writers + count_acquires es
unfolding run_events
run_events-writers [] r = omega arith
run_events-writers (acquires ∷ es) r =
    omega (arith, run_events-writers es (happen acquires r), (happen-fields acquires r).0)
run_events-writers (completes ∷ es) r =
    omega (arith, run_events-writers es (happen completes r), (happen-fields completes r).0)
run_events-writers (ends ∷ es) r =
    omega (arith, run_events-writers es (happen ends r), (happen-fields ends r).0)

run_events-completed_writers :
    (es : List Event) (r : ResultSet)
    → (run_events es r).completed_writers ≡ r.completed_writers + count_completes es
unfolding run_events
run_events-completed_writers [] r = omega arith
run_events-completed_writers (acquires ∷ es) r =
    omega (arith, run_events-completed_writers es (happen acquires r), (happen-fields acquires r).1)
run_events-completed_writers (completes ∷ es) r =
    omega
      (arith, run_events-completed_writers es (happen completes r), (happen-fields completes r).1)
run_events-completed_writers (ends ∷ es) r =
    omega (arith, run_events-completed_writers es (happen ends r), (happen-fields ends r).1)

run_events-eor : (es : List Event) (r : ResultSet) → (run_events es r).eor ≡ (r.eor || has_end es)
unfolding run_events
run_events-eor [] r = ground arith
run_events-eor (acquires ∷ es) r =
    ground (arith, run_events-eor es (happen acquires r), (happen-fields acquires r).2)
run_events-eor (completes ∷ es) r =
    ground (arith, run_events-eor es (happen completes r), (happen-fields completes r).2)
run_events-eor (ends ∷ es) r =
    ground (arith, run_events-eor es (happen ends r), (happen-fields ends r).2)

-- However the writers of a result set are acquired and complete, where none completes that was not
-- acquired and none is acquired after the end of the result set, the client is told the end of the
-- records once if the result set is at its end and each writer has completed, and else not at all.
pub run_events-signals :
    (es : List Event)
    → InOrder es result_set
    → (run_events es result_set).signals
      ≡ (if (count_acquires es == count_completes es) && has_end es then 1 else 0)
run_events-signals es h =
    let t =
      run_events-Told es result_set (record { bounded = omega arith; flagged = refl; once = refl })
        h in
    let r = run_events es result_set in
    ground (
      arith,
      t.once,
      run_events-writers es result_set,
      run_events-completed_writers es result_set,
      run_events-eor es result_set,
    )
