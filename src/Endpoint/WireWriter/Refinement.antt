-- ===== src/Endpoint/WireWriter/Refinement.antt =====
-- The writer with its annexes and its thread gives the wire the records that were written, in order
-- and once each, however the rounds of the thread fall between the calls.
use tateyama.Base.{ℕ, zero, suc, ◌≡◌, refl, ap, ap₂, ◌∙◌, false, List, [], ◌∷◌, arith, All}
use tateyama.Endpoint.WireWriter.{Sink, Writer, release, thread_round}
use tateyama.Endpoint.WireWriter.View.{replay_all}
use tateyama.Endpoint.WireWriter.Steps.{
  view, Invariant, Promise, Step, writes, flushes, rounds, promised, step, promise_of, HasBytes,
  Keeps,
}
use tateyama.Endpoint.WireWriter.{writer}
use tateyama.Endpoint.WireWriter.Writing.{write-Keeps}
use tateyama.Endpoint.WireWriter.Flushing.{flush-Keeps}
use tateyama.Endpoint.WireWriter.Rounds.{
  round-Keeps, Draining, Drains, round-Drains, same_annexes-Drains,
}

unfoldable pub run : List Step → Writer → Writer
unfolding step
run [] w = w
run (s ∷ ss) w = run ss (step s w)

unfoldable pub run_promised : ℕ → List Step → Promise → Promise
unfolding promised
run_promised buffer_size [] p = p
run_promised buffer_size (s ∷ ss) p = run_promised buffer_size ss (promised buffer_size s p)

-- the rounds of the thread alone
unfoldable pub drain : ℕ → Writer → Writer
unfolding thread_round
drain zero w = w
drain (suc n) w = drain n (thread_round w)

step-Keeps : (s : Step) (w : Writer) → Invariant w → HasBytes s → Keeps s w (step s w)
unfolding step
step-Keeps (writes room from) w v h = write-Keeps room from w v h
step-Keeps flushes w v h = flush-Keeps w v
step-Keeps rounds w v h = round-Keeps w v

abbrev pub Follows : List Step → Writer → Writer → Type 0
Follows ss w w' =
    Invariant w' × (promise_of w' ≡ run_promised w.datachannel_buffer_size ss (promise_of w))

pub run-Follows :
    (ss : List Step) (w : Writer) → Invariant w → All HasBytes ss → Follows ss w (run ss w)
unfolding run run_promised
run-Follows [] w v h = (v, refl)
run-Follows (s ∷ ss) w v (h, hs) =
    let k = step-Keeps s w v h in
    let (v', e) = run-Follows ss (step s w) k.invariant hs in
    (v', e ∙ ap₂ (λ (n : ℕ) (p : Promise). run_promised n ss p) k.buffer_size k.kept)

drain-view : (n : ℕ) (w : Writer) → Draining w → view (drain n w) ≡ view w
unfolding drain
drain-view zero w d = refl
drain-view (suc n) w d = let (d', e) = round-Drains w d in drain-view n (thread_round w) d' ∙ e

release-queue : (w : Writer) → (release w).queue ≡ w.queue
unfolding release
release-queue w = ground arith

release-sink : (w : Writer) → (release w).sink ≡ w.sink
unfolding release
release-sink w = ground arith

release-Drains : (w : Writer) → Invariant w → Drains w (release w)
release-Drains w v =
    same_annexes-Drains w (release w) (record { good = v.good; not_closed = v.not_closed })
      (release-queue w) (release-sink w)

pub writer-Invariant : (size : ℕ) → Invariant (writer size)
unfolding writer
writer-Invariant size = record {
  good = tt;
  not_closed = refl;
  not_released = refl;
  direct = λ m. refl;
  last = λ m. absurd (cc);
  unthreaded = λ m. (refl, refl);
  threaded = λ m. absurd (cc);
  settled = λ m. absurd (cc);
}

-- what a new writer with a buffer of that size is to do for these steps
abbrev pub promised_records : ℕ → List Step → Sink
promised_records size ss =
    (run_promised size ss
      (record { sink = record { records = []; current = []; closed = false }; size = 0 })).sink

pub start :
    (size : ℕ) (ss : List Step)
    → (run_promised (writer size).datachannel_buffer_size ss (promise_of (writer size))).sink
      ≡ promised_records size ss
unfolding writer replay_all
start size ss = refl

-- A new writer is given any calls of `write`, with at least a byte each, and `flush`, with rounds of
-- its thread between them wherever they fall, then `release` and further rounds, and the client does
-- not close the result set. Then the records on the wire, followed by those still in the annexes, are
-- before and after the release those that the calls made, in order.
pub run-promised :
    (size : ℕ) (ss : List Step) (n : ℕ)
    → All HasBytes ss
    → (view (run ss (writer size)) ≡ promised_records size ss)
      × (view (drain n (release (run ss (writer size)))) ≡ promised_records size ss)
run-promised size ss n h =
    let (v, e) = run-Follows ss (writer size) (writer-Invariant size) h in
    let (d, e') = release-Drains (run ss (writer size)) v in
    let before = ap (λ (p : Promise). p.sink) e ∙ start size ss in
    (before, (drain-view n (release (run ss (writer size))) d ∙ e') ∙ before)
