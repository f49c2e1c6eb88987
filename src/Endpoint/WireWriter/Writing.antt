-- ===== src/Endpoint/WireWriter/Writing.antt =====
-- `write` of the writer, on each of its ways.
use mathlib.Core.Path.{subst}
use tateyama.Base.{
  ◌+◌, ◌≤◌, ◌<◌, ◌≡◌, refl, sym, ap, ◌∙◌, Bool, true, false, [], ◌∷◌, length, arith, Bool-cases,
  inl, inr,
}
use tateyama.Base.Text.{Str}
use tateyama.Endpoint.WireWriter.{
  sink_write, annex, Writer, write, too_large, extend_queue, enter_annex_mode, to_annex,
}
use tateyama.Endpoint.WireWriter.Annexes.{annex-IsGood}
use tateyama.Endpoint.WireWriter.Queue.{Extends, extend_queue-Extends, replay-annex}
use tateyama.Endpoint.WireWriter.View.{replay_all, sink_write-closed}
use tateyama.Endpoint.WireWriter.Steps.{
  view, Invariant, writes, promised, promise_of, Keeps, promise_eq,
}

resized : Writer → Str → Writer
resized w from = record w { current_record_size = w.current_record_size + length from }

promised-write :
    (w : Writer) (room : Bool) (from : Str)
    → too_large w from ≡ false
    → promised w.datachannel_buffer_size (writes room from) (promise_of w)
      ≡ record { sink = sink_write from (view w); size = w.current_record_size + length from }
unfolding promised too_large
promised-write w room from t = promise_eq (rw t refl) refl

promised-too_large :
    (w : Writer) (room : Bool) (from : Str)
    → too_large w from ≡ true
    → promised w.datachannel_buffer_size (writes room from) (promise_of w)
      ≡ record { sink = view w; size = w.current_record_size + length from }
unfolding promised too_large
promised-too_large w room from t = promise_eq (rw t refl) refl

write-too_large :
    (room : Bool) (from : Str) (w : Writer)
    → too_large w from ≡ true
    → (write room from w).1 ≡ resized w from
unfolding write resized
write-too_large room from w t = ground arith

write_annex :
    (room : Bool) (from : Str) (w : Writer)
    → too_large w from ≡ false
    → w.annex_mode ≡ true
    → (write room from w).1 ≡ to_annex from (resized w from)
unfolding write resized
write_annex room from w t m = ground arith

write_direct :
    (from : Str) (w : Writer)
    → too_large w from ≡ false
    → w.annex_mode ≡ false
    → (write true from w).1 ≡ record (resized w from) { sink = sink_write from w.sink }
unfolding write resized
write_direct from w t m = ground arith

write_enter :
    (from : Str) (w : Writer)
    → too_large w from ≡ false
    → w.annex_mode ≡ false
    → (write false from w).1 ≡ to_annex from (enter_annex_mode (resized w from))
unfolding write resized
write_enter from w t m = ground arith

too_large-Keeps :
    (room : Bool) (from : Str) (w : Writer)
    → Invariant w
    → too_large w from ≡ true
    → Keeps (writes room from) w (write room from w).1
unfolding resized
too_large-Keeps room from w v t =
    subst (Keeps (writes room from) w) (sym (write-too_large room from w t)) (record {
      invariant = record {
        good = v.good;
        not_closed = v.not_closed;
        not_released = v.not_released;
        direct = v.direct;
        last = v.last;
        unthreaded = v.unthreaded;
        threaded = v.threaded;
        settled = v.settled;
      };
      kept = sym (promised-too_large w room from t);
      buffer_size = refl;
    })

fits_buffer :
    (w : Writer) (from : Str) → too_large w from ≡ false → length from ≤ w.datachannel_buffer_size
unfolding too_large
fits_buffer w from t = ground arith

-- a `write` that goes to the annexes
annex_write-Keeps :
    (room : Bool) (from : Str) (w w' : Writer)
    → too_large w from ≡ false
    → w'.sink.closed ≡ false
    → w'.released ≡ false
    → w'.annex_mode ≡ true
    → (w'.thread_invoked ≡ true) × (w'.thread_active ≡ true)
    → w'.current_record_size ≡ w.current_record_size + length from
    → w'.datachannel_buffer_size ≡ w.datachannel_buffer_size
    → view w' ≡ view w
    → Extends from w'.queue (extend_queue w'.datachannel_buffer_size from w'.queue)
    → Keeps (writes room from) w (to_annex from w')
annex_write-Keeps room from w w' t o r m th n b same e = record {
  invariant = record {
    good = e.good;
    not_closed = o;
    not_released = r;
    direct = λ d. absurd (cc);
    last = λ m. e.last;
    unthreaded = λ d. absurd (cc);
    threaded = λ m. th;
    settled = λ m z. absurd (omega (arith, e.more, z));
  };
  kept =
      promise_eq (e.replayed w'.sink ∙ ap (sink_write from) same) n
      ∙ sym (promised-write w room from t);
  buffer_size = b;
}

entered-Extends :
    (from : Str) (w : Writer)
    → Invariant w
    → w.annex_mode ≡ false
    → too_large w from ≡ false
    → 0 < length from
    → Extends from
        (enter_annex_mode (resized w from)).queue
        (extend_queue w.datachannel_buffer_size from (enter_annex_mode (resized w from)).queue)
unfolding resized annex
entered-Extends from w v m t pos = rw (v.direct m) (
    extend_queue-Extends w.datachannel_buffer_size from (annex w.datachannel_buffer_size ∷ []) pos
      (fits_buffer w from t) (annex-IsGood w.datachannel_buffer_size, tt) refl)

view_entered :
    (from : Str) (w : Writer)
    → Invariant w
    → w.annex_mode ≡ false
    → view (enter_annex_mode (resized w from)) ≡ view w
unfolding resized replay_all
view_entered from w v m = rw (v.direct m) (replay-annex w.datachannel_buffer_size w.sink)

direct-Keeps :
    (from : Str) (w : Writer)
    → Invariant w
    → too_large w from ≡ false
    → w.annex_mode ≡ false
    → Keeps (writes true from) w (record (resized w from) { sink = sink_write from w.sink })
unfolding resized replay_all
direct-Keeps from w v t m = record {
  invariant = record {
    good = v.good;
    not_closed = sink_write-closed from w.sink ∙ v.not_closed;
    not_released = v.not_released;
    direct = v.direct;
    last = v.last;
    unthreaded = v.unthreaded;
    threaded = v.threaded;
    settled = λ m' z. absurd (cc);
  };
  kept = promise_eq (rw (v.direct m) refl) refl ∙ sym (promised-write w true from t);
  buffer_size = refl;
}

annexed-Keeps :
    (room : Bool) (from : Str) (w : Writer)
    → Invariant w
    → too_large w from ≡ false
    → w.annex_mode ≡ true
    → 0 < length from
    → Keeps (writes room from) w (write room from w).1
unfolding resized
annexed-Keeps room from w v t m pos =
    subst (Keeps (writes room from) w) (sym (write_annex room from w t m)) (
      annex_write-Keeps room from w (resized w from) t v.not_closed v.not_released m (v.threaded m)
        refl refl refl
        (extend_queue-Extends w.datachannel_buffer_size from w.queue pos (fits_buffer w from t)
          v.good (v.last m)))

first_annex-Keeps :
    (room : Bool) (from : Str) (w : Writer)
    → Invariant w
    → too_large w from ≡ false
    → w.annex_mode ≡ false
    → 0 < length from
    → Keeps (writes room from) w (write room from w).1
unfolding resized
first_annex-Keeps true from w v t m pos =
    subst (Keeps (writes true from) w) (sym (write_direct from w t m)) (direct-Keeps from w v t m)
first_annex-Keeps false from w v t m pos =
    subst (Keeps (writes false from) w) (sym (write_enter from w t m)) (
      annex_write-Keeps false from w (enter_annex_mode (resized w from)) t v.not_closed
        v.not_released refl (refl, refl) refl refl (view_entered from w v m)
        (entered-Extends from w v m t pos))

pub write-Keeps :
    (room : Bool) (from : Str) (w : Writer)
    → Invariant w
    → 0 < length from
    → Keeps (writes room from) w (write room from w).1
unfolding resized
write-Keeps room from w v pos = elim (Bool-cases (too_large w from)) [
  | inl t ↦ too_large-Keeps room from w v t
  | inr t ↦ elim (Bool-cases w.annex_mode) [
    | inl m ↦ annexed-Keeps room from w v t m pos
    | inr m ↦ first_annex-Keeps room from w v t m pos
  ]
]
