-- ===== src/Endpoint/WireWriter/Steps.antt =====
-- What the writer with its annexes and its thread promises, and its steps.
use tateyama.Base.{ℕ, ◌+◌, ◌<◌, ◌≡◌, ap₂, Bool, true, false, ltb, if◌then◌else◌, [], length, All}
use tateyama.Base.Text.{Str}
use tateyama.Wire.Header.{length_header_size}
use tateyama.Endpoint.WireWriter.{Sink, sink_write, sink_flush, Writer, write, flush, thread_round}
use tateyama.Endpoint.WireWriter.Queue.{LastOpen, unflushed}
use tateyama.Endpoint.WireWriter.View.{replay_all, IsGood}

-- what the wire comes to hold
abbrev pub view : Writer → Sink
view w = replay_all w.queue w.sink

-- the writer before its release
pub record Invariant (w : Writer) : Type 0 where
  pub good : All IsGood w.queue
  pub not_closed : w.sink.closed ≡ false
  pub not_released : w.released ≡ false
  pub direct : w.annex_mode ≡ false → w.queue ≡ []
  pub last : w.annex_mode ≡ true → LastOpen w.queue
  pub unthreaded : w.annex_mode ≡ false → (w.thread_invoked ≡ false) × (w.thread_active ≡ false)
  pub threaded : w.annex_mode ≡ true → (w.thread_invoked ≡ true) × (w.thread_active ≡ true)
  pub settled : w.annex_mode ≡ true → unflushed w.queue ≡ 0 → (view w).current ≡ []

-- What the writer promises: records in order, and an error for a record that is too large.
pub record Promise : Type 0 where
  pub sink : Sink
  pub size : ℕ

pub data Step : Type 0 where
  writes : Bool → Str → Step
  flushes rounds : Step

unfoldable pub promised : ℕ → Step → Promise → Promise
promised buffer_size (writes room from) p = record {
  sink =
      (if ltb buffer_size (p.size + length from + length_header_size)
        then p.sink
        else sink_write from p.sink);
  size = p.size + length from;
}
promised buffer_size flushes p = record { sink = sink_flush p.sink; size = 0 }
promised buffer_size rounds p = p

unfoldable pub step : Step → Writer → Writer
unfolding write flush thread_round
step (writes room from) w = (write room from w).1
step flushes w = flush w
step rounds w = thread_round w

abbrev pub promise_of : Writer → Promise
promise_of w = record { sink = view w; size = w.current_record_size }

abbrev pub HasBytes : Step → Type 0
HasBytes (writes room from) = 0 < length from
HasBytes flushes = Unit
HasBytes rounds = Unit

-- what a step of the writer does
pub record Keeps (s : Step) (w w' : Writer) : Type 0 where
  pub invariant : Invariant w'
  pub kept : promise_of w' ≡ promised w.datachannel_buffer_size s (promise_of w)
  pub buffer_size : w'.datachannel_buffer_size ≡ w.datachannel_buffer_size

pub promise_eq :
    {s s' : Sink} {n n' : ℕ}
    → s ≡ s'
    → n ≡ n'
    → ◌≡◌ {A = Promise} (record { sink = s; size = n }) (record { sink = s'; size = n' })
promise_eq p q = ap₂ (λ (s : Sink) (n : ℕ). record { sink = s; size = n }) p q
