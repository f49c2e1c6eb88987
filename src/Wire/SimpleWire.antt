-- ===== src/Wire/SimpleWire.antt =====
-- `simple_wire<T>` of src/tateyama/endpoint/ipc/wire.h over any header type `T`.
-- A blocking call is one step for each chunk that it moves: the step is unavailable (`none`) while
-- the predicate of its condition variable is false. The wait flags and notifications only decide
-- when a blocked process looks again, and are left out.
pub mod Valid
pub mod Chunks
pub mod PayloadView
use tateyama.Base.{
  ℕ, ◌+◌, ◌-◌, Bool, true, false, ◌&&◌, ltb, leb, not, if◌then◌else◌, Option, none, some, List, [],
  ◌++◌, length, take, drop,
}
use tateyama.Base.Words.{add_size, sub_size}
use tateyama.Wire.Ring.{Memory, index, load, write_in_buffer, read_from_buffer}
use tateyama.Wire.Header.{HeaderKind}

abbrev pub min_size : ℕ → ℕ → ℕ
min_size a b = if ltb b a then b else a

-- How far a call of `write` is: the bytes of the message still to be written.
pub data Writing : Type 0 where
  more : List ℕ → Writing
  finished abandoned : Writing

-- How far a call of `read` is: the bytes still to come and those copied so far.
pub data Reading : Type 0 where
  more : ℕ → List ℕ → Reading
  finished : List ℕ → Reading

abbrev pub bytes_read : Reading → List ℕ
bytes_read (more remaining out) = out
bytes_read (finished out) = out

-- the loop test of `read` and of `write`
unfoldable pub read_more : ℕ → List ℕ → Reading
read_more n out = if ltb 0 n then more n out else finished out

unfoldable pub write_more : List ℕ → Writing
write_more from = if ltb 0 (length from) then more from else finished

module _ (k : HeaderKind) where
  open k use {Header, size, blank, get_length, get_buffer, from_buffer}

  pub record Wire : Type 0 where
    pub capacity : ℕ
    pub mem : Memory
    pub pushed : ℕ
    pub poped : ℕ
    pub header_received : Header
    pub need_dispose : ℕ
    pub copy_of_payload : Option (List ℕ)

  -- the constructor; the allocator gives the memory
  unfoldable pub new_wire : ℕ → Memory → Wire
  new_wire capacity mem = record {
    capacity = capacity;
    mem = mem;
    pushed = 0;
    poped = 0;
    header_received = blank;
    need_dispose = 0;
    copy_of_payload = none;
  }

  abbrev pub stored : Wire → ℕ
  stored w = sub_size w.pushed w.poped

  abbrev pub room : Wire → ℕ
  room w = sub_size w.capacity (stored w)

  abbrev pub max_payload_length : Wire → ℕ
  max_payload_length w = sub_size w.capacity size

  -- `read_address(base, offset)`
  abbrev pub read_address : Wire → ℕ → ℕ
  read_address w offset = index w.capacity (add_size w.poped offset)

  abbrev pub buffer_address : Wire → ℕ → ℕ
  buffer_address w n = index w.capacity n

  -- `copy_header`
  unfoldable pub copy_header : Wire → Wire
  copy_header w = record w {
    header_received =
        if leb (read_address w 0 + size) w.capacity
        then from_buffer (load w.mem (read_address w 0) size)
        else (let first_part = w.capacity - index w.capacity w.poped in
            from_buffer
              (load w.mem (read_address w 0) first_part ++ load w.mem 0 (size - first_part)));
  }

  -- `read` up to its first loop test
  unfoldable pub read_first : Wire → Wire × Reading
  unfolding read_more
  read_first w =
      let length' = get_length w.header_received in
      let msg_length = min_size length' (max_payload_length w) in
      let out = read_from_buffer w.capacity w.mem (read_address w size) msg_length in
      (
        record w { poped = add_size w.poped (size + msg_length) },
        read_more (length' - msg_length) out,
      )

  -- one round of the loop of `read`, with `remaining` bytes to come
  unfoldable pub read_rest : Wire → ℕ → List ℕ → Option (Wire × Reading)
  unfolding read_more
  read_rest w remaining out =
      let msg_length = min_size remaining w.capacity in
      if leb msg_length (stored w)
      then (let part = read_from_buffer w.capacity w.mem (read_address w 0) msg_length in
          some (
            record w { poped = add_size w.poped msg_length },
            read_more (remaining - msg_length) (out ++ part),
          ))
      else none

  -- `wait_to_write` returns once there is room or the wire is closed.
  abbrev pub may_write : Wire → ℕ → Bool → Bool
  may_write w msg_length closed = if ltb (room w) msg_length then closed else true

  -- `write` up to its first loop test; `from` holds the `get_length header` bytes of the body
  unfoldable pub write_first : Wire → Header → List ℕ → Bool → Option (Wire × Writing)
  unfolding write_more
  write_first w header from closed =
      let length' = add_size (get_length header) size in
      let msg_length = min_size length' w.capacity in
      let mem1 = write_in_buffer w.capacity w.mem (buffer_address w w.pushed) (get_buffer header) in
      let mem2 =
        if ltb size msg_length
        then write_in_buffer w.capacity mem1 (buffer_address w (add_size w.pushed size))
            (take (msg_length - size) from)
        else mem1 in
      if may_write w msg_length closed
      then (if closed
          then some (w, abandoned)
          else some (
            record w { mem = mem2; pushed = add_size w.pushed msg_length },
            write_more (drop (msg_length - size) from),
          ))
      else none

  -- one round of the loop of `write`, with the bytes `from` still to be written
  unfoldable pub write_rest : Wire → List ℕ → Bool → Option (Wire × Writing)
  unfolding write_more
  write_rest w from closed =
      let msg_length = min_size (length from) w.capacity in
      if may_write w msg_length closed
      then (if closed
          then some (w, abandoned)
          else some (
            record w {
              mem =
                  write_in_buffer w.capacity w.mem (buffer_address w w.pushed)
                    (take msg_length from);
              pushed = add_size w.pushed msg_length;
            },
            write_more (drop msg_length from),
          ))
      else none

  -- What `payload` gives: a view into the ring, or a copy that `read` is filling.
  pub data Payload : Type 0 where
    view : List ℕ → Payload
    copy : Reading → Payload

  -- `payload`. The copy is kept in `copy_of_payload`, with what has been read so far. The view is the `length'` bytes from the address on, wherever they lie.
  unfoldable pub payload : Wire → Wire × Payload
  payload w =
      let length' = get_length w.header_received in
      if ltb (read_address w size) (index w.capacity (add_size (add_size w.poped size) length'))
      then (
        record w { need_dispose = size + length' },
        view (load w.mem (read_address w size) length'),
      )
      else (let (w', r) = read_first w in
          (record w' { copy_of_payload = some (bytes_read r) }, copy r))

  -- `dispose`
  unfoldable pub dispose : Wire → Wire
  dispose w =
      if ltb 0 w.need_dispose
      then record w {
        poped = add_size w.poped w.need_dispose;
        need_dispose = 0;
        copy_of_payload = none;
      }
      else record w { copy_of_payload = none }
