-- ===== src/Endpoint/WireWriter/Flushing.antt =====
-- `flush` of the writer.
use mathlib.Core.Path.{subst}
use tateyama.Base.{◌≡◌, refl, sym, ap, ◌∙◌, true, false, [], arith, Bool-cases, inl, inr}
use tateyama.Endpoint.WireWriter.{Sink, sink_flush, Writer, flush, flush_last}
use tateyama.Endpoint.WireWriter.Moving.{zero_or_more}
use tateyama.Endpoint.WireWriter.Queue.{unflushed, flush_last-Flushes}
use tateyama.Endpoint.WireWriter.View.{replay_all, sink_flush-closed}
use tateyama.Endpoint.WireWriter.Steps.{view, Invariant, flushes, promised, Keeps, promise_eq}

sink_flush-nil : (s : Sink) → s.current ≡ [] → sink_flush s ≡ s
unfolding sink_flush
sink_flush-nil s e = ground arith

flush_annex :
    (w : Writer)
    → w.annex_mode ≡ true
    → flush w ≡ record w { current_record_size = 0; queue = flush_last w.queue }
unfolding flush
flush_annex w m = ground arith

flush_direct :
    (w : Writer)
    → w.annex_mode ≡ false
    → flush w ≡ record w { current_record_size = 0; sink = sink_flush w.sink }
unfolding flush
flush_direct w m = ground arith

replay-flush_last :
    (w : Writer)
    → Invariant w
    → w.annex_mode ≡ true
    → replay_all (flush_last w.queue) w.sink ≡ sink_flush (view w)
replay-flush_last w v m =
    let f = flush_last-Flushes w.queue v.good (v.last m) in
    elim (zero_or_more (unflushed w.queue)) [
      | inl z ↦ f.unchanged z w.sink ∙ sym (sink_flush-nil (view w) (v.settled m z))
      | inr pos ↦ f.replayed pos w.sink
    ]

flushed_annexes-Keeps :
    (w : Writer)
    → Invariant w
    → w.annex_mode ≡ true
    → Keeps flushes w (record w { current_record_size = 0; queue = flush_last w.queue })
unfolding promised sink_flush
flushed_annexes-Keeps w v m =
    let f = flush_last-Flushes w.queue v.good (v.last m) in
    record {
      invariant = record {
        good = f.good;
        not_closed = v.not_closed;
        not_released = v.not_released;
        direct = λ d. absurd (cc);
        last = λ m'. f.last;
        unthreaded = v.unthreaded;
        threaded = v.threaded;
        settled = λ m' z. ap (λ (s : Sink). s.current) (replay-flush_last w v m);
      };
      kept = promise_eq (replay-flush_last w v m) refl;
      buffer_size = refl;
    }

flushed_wire-Keeps :
    (w : Writer)
    → Invariant w
    → w.annex_mode ≡ false
    → Keeps flushes w (record w { current_record_size = 0; sink = sink_flush w.sink })
unfolding promised replay_all
flushed_wire-Keeps w v m = record {
  invariant = record {
    good = v.good;
    not_closed = sink_flush-closed w.sink ∙ v.not_closed;
    not_released = v.not_released;
    direct = v.direct;
    last = v.last;
    unthreaded = v.unthreaded;
    threaded = v.threaded;
    settled = λ m' z. absurd (cc);
  };
  kept = promise_eq (rw (v.direct m) refl) refl;
  buffer_size = refl;
}

pub flush-Keeps : (w : Writer) → Invariant w → Keeps flushes w (flush w)
flush-Keeps w v = elim (Bool-cases w.annex_mode) [
  | inl m ↦ subst (Keeps flushes w) (sym (flush_annex w m)) (flushed_annexes-Keeps w v m)
  | inr m ↦ subst (Keeps flushes w) (sym (flush_direct w m)) (flushed_wire-Keeps w v m)
]

pub flush-annex_mode : (w : Writer) → (flush w).annex_mode ≡ w.annex_mode
unfolding flush
flush-annex_mode w = ground arith

pub flush-unflushed :
    (w : Writer) → Invariant w → w.annex_mode ≡ true → unflushed (flush w).queue ≡ 0
flush-unflushed w v m =
    ap (λ (u : Writer). unflushed u.queue) (flush_annex w m)
    ∙ (flush_last-Flushes w.queue v.good (v.last m)).none_left
