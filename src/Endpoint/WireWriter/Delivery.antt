-- ===== src/Endpoint/WireWriter/Delivery.antt =====
-- After its last `flush` and its release, the writer brings everything to the wire, in a number of
-- rounds of its thread that the annexes bound.
use mathlib.Core.Path.{subst}
use tateyama.Base.{
  ℕ, ◌<◌, ◌≡◌, refl, sym, ap, ◌∙◌, true, false, List, [], ◌∷◌, arith, Bool-cases, inl, inr, All,
}
use tateyama.Endpoint.WireWriter.{Sink, sink_flush, Annex, Writer, writer, flush, release}
use tateyama.Endpoint.WireWriter.Queue.{LastOpen, unflushed}
use tateyama.Endpoint.WireWriter.Steps.{view, Invariant, Step, HasBytes, Promise, promised}
use tateyama.Endpoint.WireWriter.Flushing.{flush-Keeps, flush-annex_mode, flush-unflushed}
use tateyama.Endpoint.WireWriter.Refinement.{
  run, run-Follows, writer-Invariant, start, drain, promised_records,
}
use tateyama.Endpoint.WireWriter.View.{replay_all}
use tateyama.Endpoint.WireWriter.Ending.{work, Flushed, Ending, Ended, idle-Ended, drain-Ended}

LastOpen-Flushed : (q : List Annex) → LastOpen q → unflushed q ≡ 0 → Flushed q
LastOpen-Flushed [] l z = tt
LastOpen-Flushed (a ∷ q) l z = (l, z)

release_threaded : (w : Writer) → w.thread_invoked ≡ true → release w ≡ record w { released = true }
unfolding release
release_threaded w t = ground arith

release_unthreaded :
    (w : Writer) → w.thread_invoked ≡ false → release w ≡ record w { completed = true }
unfolding release
release_unthreaded w t = ground arith

threaded-Ended :
    (n : ℕ) (w : Writer)
    → Invariant w
    → w.annex_mode ≡ true
    → unflushed w.queue ≡ 0
    → work w.queue < n
    → Ended (view w) (drain n (release w))
threaded-Ended n w v m z h =
    let ready : Ending (view w) (record w { released = true }) = record {
      good = v.good;
      not_closed = v.not_closed;
      flushed = LastOpen-Flushed w.queue (v.last m) z;
      released = refl;
      active = (v.threaded m).1;
      same = refl;
    } in
    subst (λ (u : Writer). Ended (view w) (drain n u)) (sym (release_threaded w (v.threaded m).0))
      (drain-Ended n (view w) (record w { released = true }) w.queue refl ready h)

unthreaded-Ended :
    (n : ℕ) (w : Writer) → Invariant w → w.annex_mode ≡ false → Ended (view w) (drain n (release w))
unfolding replay_all
unthreaded-Ended n w v m =
    let ready : Ended (view w) (record w { completed = true }) = record {
      empty = v.direct m;
      completed = refl;
      inactive = (v.unthreaded m).1;
      delivered = ap (λ (q : List Annex). replay_all q w.sink) (sym (v.direct m));
    } in
    subst (λ (u : Writer). Ended (view w) (drain n u))
      (sym (release_unthreaded w (v.unthreaded m).0))
      (idle-Ended n (view w) (record w { completed = true }) ready)

flushed-Ended :
    (n : ℕ) (w : Writer)
    → Invariant w
    → work (flush w).queue < n
    → Ended (sink_flush (view w)) (drain n (release (flush w)))
unfolding promised
flushed-Ended n w v h =
    let k = flush-Keeps w v in
    let target = ap (λ (p : Promise). p.sink) k.kept in
    subst (λ (s : Sink). Ended s (drain n (release (flush w)))) target
      (elim (Bool-cases w.annex_mode) [
        | inl m ↦
            threaded-Ended n (flush w) k.invariant (flush-annex_mode w ∙ m) (flush-unflushed w v m)
              h
        | inr m ↦ unthreaded-Ended n (flush w) k.invariant (flush-annex_mode w ∙ m)
      ])

-- Where a new writer is given any calls of `write`, with at least a byte each, and `flush`, with
-- rounds of its thread between them, then a last `flush` and `release`, and the client does not close
-- the result set, more rounds of the thread than the annexes then have chunks and annexes leave no
-- annex and complete the writer, and all the records that the calls made are on the wire, in order.
pub drain-delivers :
    (size : ℕ) (ss : List Step) (n : ℕ)
    → All HasBytes ss
    → work (flush (run ss (writer size))).queue < n
    → ((drain n (release (flush (run ss (writer size))))).queue ≡ [])
      × ((drain n (release (flush (run ss (writer size))))).completed ≡ true)
      × ((drain n (release (flush (run ss (writer size))))).sink
          ≡ sink_flush (promised_records size ss))
drain-delivers size ss n h few =
    let (v, e) = run-Follows ss (writer size) (writer-Invariant size) h in
    let d = flushed-Ended n (run ss (writer size)) v few in
    (
      d.empty,
      d.completed,
      d.delivered ∙ ap sink_flush (ap (λ (p : Promise). p.sink) e ∙ start size ss),
    )
