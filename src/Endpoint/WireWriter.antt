-- ===== src/Endpoint/WireWriter.antt =====
-- `resultset_wire_container_impl` of src/tateyama/endpoint/ipc/bootstrap/server_wires_impl.h: the
-- writer of a result set. Once the wire is full, the records go to buffers in the memory of the
-- server, the annexes, and a thread moves them to the wire.
--
-- The wire below stands as the records that it was given (Wire/ResultWire models its ring). A call of
-- the writer and a round of the thread are one step each; `check_room` of the wire is an input.
pub mod Annexes
pub mod Moving
pub mod Queue
pub mod Steps
pub mod Writing
pub mod Flushing
pub mod Rounds
pub mod Progress
pub mod Ending
pub mod Delivery
pub mod View
pub mod Refinement
use tateyama.Base.{
  ℕ, ◌+◌, Bool, true, false, not, ◌&&◌, ◌==◌, leb, ltb, if◌then◌else◌, List, [], ◌∷◌, ◌++◌, length,
  take, drop,
}
use tateyama.Base.Text.{Str}
use tateyama.Wire.Header.{length_header_size}

-- the records that the wire was given, the one in progress, and whether the client has closed it
pub record Sink : Type 0 where
  pub records : List Str
  pub current : Str
  pub closed : Bool

unfoldable pub sink_write : Str → Sink → Sink
sink_write from s = if s.closed then s else record s { current = s.current ++ from }

abbrev pub finished_records : Str → List Str → List Str
finished_records [] rs = rs
finished_records (b ∷ bs) rs = rs ++ ((b ∷ bs) ∷ [])

unfoldable pub sink_flush : Sink → Sink
sink_flush s = record s { records = finished_records s.current s.records; current = [] }

-- `read_point` is the place of the iterator.
pub record Annex : Type 0 where
  pub capacity : ℕ
  pub buffer : Str
  pub read_point : ℕ
  pub chunks : List ℕ
  pub write_pos : ℕ
  pub chunk_size : ℕ
  pub full : Bool

unfoldable pub annex : ℕ → Annex
annex size = record {
  capacity = size;
  buffer = [];
  read_point = 0;
  chunks = [];
  write_pos = 0;
  chunk_size = 0;
  full = false;
}

unfoldable pub is_room : Annex → ℕ → Bool
is_room a length' = leb (a.write_pos + a.chunk_size + length') a.capacity

-- `is_room` where it answers false
abbrev pub set_full : Annex → Annex
set_full a = record a { full = true }

abbrev pub insert : ℕ → Str → Str → Str
insert position from buffer = take position buffer ++ (from ++ drop position buffer)

unfoldable pub annex_write : Str → Annex → Annex
annex_write from a = record a {
  buffer = insert (a.write_pos + a.chunk_size) from a.buffer;
  chunk_size = a.chunk_size + length from;
}

unfoldable pub annex_flush : Annex → Annex
annex_flush a = record a {
  chunks = (if ltb 0 a.chunk_size then a.chunks ++ (a.chunk_size ∷ []) else a.chunks);
  write_pos = a.write_pos + a.chunk_size;
  chunk_size = 0;
}

unfoldable pub exhausted : Annex → Bool
exhausted a = a.full && (a.read_point == length a.buffer)

-- what a round of `transfer` comes to
pub data Transfer : Type 0 where
  waits goes_on : Transfer
  ends : Bool → Transfer

-- the `size` bytes at the read point
abbrev pub next_bytes : Annex → ℕ → Str
next_bytes a size = take size (drop a.read_point a.buffer)

abbrev pub advance : Annex → ℕ → Annex
advance a size = record a { read_point = a.read_point + size }

-- a round with no finished chunk
unfoldable pub transfer_rest : Bool → Annex → Sink → Transfer × Annex × Sink
unfolding sink_write
transfer_rest released a s =
    if released && (a.chunk_size == 0)
    then (ends true, a, s)
    else if a.full
    then if ltb 0 a.chunk_size
      then if s.closed
        then (ends false, a, s)
        else (ends true, advance a a.chunk_size, sink_write (next_bytes a a.chunk_size) s)
      else (ends true, a, s)
    else (if released then goes_on else waits, a, s)

-- a round with a finished chunk of `size` bytes
unfoldable pub transfer_chunk : ℕ → Annex → Sink → Transfer × Annex × Sink
unfolding sink_write sink_flush
transfer_chunk size a s =
    if s.closed
    then (ends false, a, s)
    else (goes_on, advance a size, sink_flush (sink_write (next_bytes a size) s))

-- `transfer`, a round of its loop
unfoldable pub transfer : Bool → Annex → Sink → Transfer × Annex × Sink
unfolding exhausted transfer_rest transfer_chunk
transfer released a s = if exhausted a then (ends true, a, s) else elim a.chunks [
  | [] ↦ transfer_rest released a s
  | size ∷ rest ↦ transfer_chunk size (record a { chunks = rest }) s
]

pub record Writer : Type 0 where
  pub sink : Sink
  pub queue : List Annex
  pub annex_mode : Bool
  pub thread_invoked : Bool
  pub thread_active : Bool
  pub released : Bool
  pub completed : Bool
  pub current_record_size : ℕ
  pub datachannel_buffer_size : ℕ

unfoldable pub writer : ℕ → Writer
writer size = record {
  sink = record { records = []; current = []; closed = false };
  queue = [];
  annex_mode = false;
  thread_invoked = false;
  thread_active = false;
  released = false;
  completed = false;
  current_record_size = 0;
  datachannel_buffer_size = size;
}

-- `write` to the last annex, or to a new one behind it
unfoldable pub extend_queue : ℕ → Str → List Annex → List Annex
unfolding annex annex_write is_room
extend_queue size from [] = annex_write from (annex size) ∷ []
extend_queue size from (a ∷ []) =
    if is_room a (length from)
    then annex_write from a ∷ []
    else set_full a ∷ annex_write from (annex size) ∷ []
extend_queue size from (a ∷ b ∷ q) = a ∷ extend_queue size from (b ∷ q)

unfoldable pub flush_last : List Annex → List Annex
unfolding annex_flush
flush_last [] = []
flush_last (a ∷ []) = annex_flush a ∷ []
flush_last (a ∷ b ∷ q) = a ∷ flush_last (b ∷ q)

-- whether `write` throws for the size of the record
unfoldable pub too_large : Writer → Str → Bool
too_large w from =
    ltb w.datachannel_buffer_size (w.current_record_size + length from + length_header_size)

abbrev pub enter_annex_mode : Writer → Writer
enter_annex_mode w = record w {
  annex_mode = true;
  queue = w.queue ++ (annex w.datachannel_buffer_size ∷ []);
  thread_active = true;
  thread_invoked = true;
}

abbrev pub to_annex : Str → Writer → Writer
to_annex from w = record w { queue = extend_queue w.datachannel_buffer_size from w.queue }

-- `write`, with what `check_room` of the wire answers; false where it throws
unfoldable pub write : Bool → Str → Writer → Bool × Writer
unfolding too_large extend_queue sink_write annex
write room from w =
    let sized = record w { current_record_size = w.current_record_size + length from } in
    if too_large w from
    then (false, sized)
    else if w.annex_mode
    then (true, to_annex from sized)
    else if room
    then (true, record sized { sink = sink_write from w.sink })
    else (true, to_annex from (enter_annex_mode sized))

unfoldable pub flush : Writer → Writer
unfolding sink_flush flush_last
flush w =
    let reset = record w { current_record_size = 0 } in
    if w.annex_mode
    then record reset { queue = flush_last w.queue }
    else record reset { sink = sink_flush w.sink }

-- `release`; without a thread it completes the writer itself
unfoldable pub release : Writer → Writer
release w = if w.thread_invoked then record w { released = true } else record w { completed = true }

abbrev pub after_transfer : Writer → List Annex → Transfer → Annex → Sink → Writer
after_transfer w q waits a s = w
after_transfer w q goes_on a s = record w { queue = a ∷ q; sink = s }
after_transfer w q (ends true) a s = record w { queue = q; sink = s }
after_transfer w q (ends false) a s = record w { queue = a ∷ q; thread_active = false }

unfoldable pub thread_work : Writer → List Annex → Writer
unfolding transfer
thread_work w [] = if w.released then record w { completed = true; thread_active = false } else w
thread_work w (a ∷ q) = let (t, a', s') = transfer w.released a w.sink in after_transfer w q t a' s'

-- a round of the thread
unfoldable pub thread_round : Writer → Writer
unfolding thread_work
thread_round w = if w.thread_active then thread_work w w.queue else w
