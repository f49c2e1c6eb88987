-- ===== src/Tests/Records.antt =====
-- A result set wire on which a record is written, read and disposed of, and tests of the ring.
use mathlib.Core.Option
use tateyama.Base.{
  ℕ, ◌+◌, ◌%◌, ◌≡◌, ◌≢◌, refl, true, false, Option, none, some, List, [], ◌∷◌, ◌++◌, arith,
}
use tateyama.Wire.Ring.{Memory, write_in_buffer, read_from_buffer}
use tateyama.Wire.Ring.Stream.{stream}
use tateyama.Wire.Ring.Copy.{stream-write_in_buffer, read_from_buffer-eq-stream}
use tateyama.Wire.Header.{length_header_of}
use tateyama.Wire.ResultWire.{
  ResultWire, brand_new, write_bytes, write, flush, check_room, get_chunk, dispose,
}
use tateyama.Wire.ResultWire.Records.{Holds, write-Holds, flush-Holds, check_room-write}
use tateyama.Wire.ResultWire.Client.{get_chunk-front, dispose-Holds}

abbrev counting : Memory
counting a = a + 100

-- a record of three bytes goes round the end of this ring
abbrev fresh : ResultWire
fresh = record {
  wire = record {
    capacity = 12;
    mem = counting;
    pushed = 6;
    poped = 6;
    header_received = length_header_of 0;
    need_dispose = 0;
    copy_of_payload = none;
  };
  pushed_valid = 6;
  closed = false;
  continued = false;
}

abbrev bytes : List ℕ
bytes = 7 ∷ 8 ∷ 9 ∷ []

fresh-Holds : Holds [] [] fresh
unfolding stream
fresh-Holds = record {
  valid = omega arith;
  shown = omega arith;
  records = refl;
  progress = refl;
  pushed_open = λ e. ground arith;
  pushed_shut = λ e. (refl, refl);
  sizes = tt;
}

abbrev or_same : ResultWire → Option ResultWire → ResultWire
or_same r none = r
or_same r (some r') = r'

abbrev written : ResultWire
written = or_same fresh (write fresh bytes)

write-Holds_example : Holds [] bytes written × (written.continued ≡ true)
unfolding write brand_new write_bytes Option.bind
write-Holds_example = write-Holds fresh-Holds bytes refl (omega arith) (omega arith) refl

written-Holds : Holds [] bytes written
unfolding write brand_new write_bytes Option.bind
written-Holds = (write-Holds fresh-Holds bytes refl (omega arith) (omega arith) refl).0

flush-Holds_example : Holds (bytes ∷ []) [] (flush written) × ((flush written).continued ≡ false)
unfolding write brand_new write_bytes Option.bind
flush-Holds_example = flush-Holds written-Holds refl (omega arith, omega arith)

flushed-Holds : Holds (bytes ∷ []) [] (flush written)
unfolding write brand_new write_bytes Option.bind
flushed-Holds = (flush-Holds written-Holds refl (omega arith, omega arith)).0

get_chunk-front_example :
    (get_chunk (flush written)).0.first ++ (get_chunk (flush written)).0.wrap_around ≡ bytes
get_chunk-front_example = get_chunk-front flushed-Holds

dispose-Holds_example : Holds [] [] (dispose (flush written))
dispose-Holds_example = dispose-Holds flushed-Holds

check_room-write_example : write fresh bytes ≢ none
unfolding check_room
check_room-write_example = check_room-write fresh-Holds bytes refl (omega arith) refl

stream-write_in_buffer_example : stream 4 (write_in_buffer 4 counting (7 % 4) bytes) 7 3 ≡ bytes
stream-write_in_buffer_example =
    stream-write_in_buffer 4 counting 7 bytes (omega arith) (omega arith)

read_from_buffer-eq-stream_example : read_from_buffer 4 counting (7 % 4) 3 ≡ stream 4 counting 7 3
read_from_buffer-eq-stream_example =
    read_from_buffer-eq-stream 4 counting 7 3 (omega arith) (omega arith)
