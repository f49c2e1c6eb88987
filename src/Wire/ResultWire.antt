-- ===== src/Wire/ResultWire.antt =====
-- `unidirectional_simple_wire` of src/tateyama/endpoint/ipc/wire.h: the records of a result set. The
-- server writes a record in pieces, each at the end of the ring, and `flush` puts the length before
-- them and shows the record to the client. A call that has to wait answers `none`.
pub mod Records
pub mod Laps
pub mod Client
use mathlib.Core.Option
use tateyama.Base.{
  ℕ, ◌+◌, ◌-◌, ◌*◌, ◌/◌, Bool, true, false, ◌==◌, ltb, leb, if◌then◌else◌, Option, none, some, List,
  [], length, not, ◌&&◌,
}
use tateyama.Base.Words.{add_size, sub_size}
use tateyama.Wire.Ring.{load, write_in_buffer}
use tateyama.Wire.Header.{length_header_size, length_header_of, length_get_buffer}
use tateyama.Wire.Header.Kinds.{length_kind}
use tateyama.Wire.SimpleWire.{Wire, room, may_write, buffer_address, read_address, copy_header}

pub record ResultWire : Type 0 where
  pub wire : Wire length_kind
  pub pushed_valid : ℕ
  pub closed : Bool
  pub continued : Bool

-- `wait_to_resultset_write` returns once there is room or the client has closed the wire.
abbrev pub has_room : ResultWire → ℕ → Bool
has_room r length' = may_write length_kind r.wire length' r.closed

-- leaves the place of the length free
unfoldable pub brand_new : ResultWire → Option ResultWire
brand_new r =
    if has_room r length_header_size
    then some
        (record r { wire = record (r.wire) { pushed = add_size r.wire.pushed length_header_size } })
    else none

-- the private `write`
unfoldable pub write_bytes : ResultWire → List ℕ → Option ResultWire
write_bytes r from =
    if has_room r (length from)
    then some (record r {
      wire = record (r.wire) {
        mem =
            write_in_buffer r.wire.capacity r.wire.mem
              (buffer_address length_kind r.wire r.wire.pushed) from;
        pushed = add_size r.wire.pushed (length from);
      };
    })
    else none

-- the public `write`
unfoldable pub write : ResultWire → List ℕ → Option ResultWire
unfolding brand_new write_bytes
write r from =
    if not r.closed && ltb 0 (length from)
    then (if r.continued
        then write_bytes r from
        else Option.bind (brand_new r) λ r'. write_bytes (record r' { continued = true }) from)
    else some r

unfoldable pub flush : ResultWire → ResultWire
flush r =
    if r.continued
    then record r {
      wire = record (r.wire) {
        mem =
            write_in_buffer r.wire.capacity r.wire.mem
              (buffer_address length_kind r.wire r.pushed_valid)
              (length_get_buffer (
                length_header_of
                  (sub_size r.wire.pushed (add_size r.pushed_valid length_header_size))));
      };
      pushed_valid = r.wire.pushed;
      continued = false;
    }
    else r

unfoldable pub check_room : ResultWire → ℕ → Bool
check_room r length' =
    if r.continued
    then leb length' (room length_kind r.wire)
    else leb (add_size length' length_header_size) (room length_kind r.wire)

unfoldable pub wait_room : ResultWire → ℕ → Option Bool
wait_room r length' =
    if has_room r (if r.continued then length' else add_size length' length_header_size)
    then some r.closed
    else none

abbrev pub stored_valid : ResultWire → ℕ
stored_valid r = sub_size r.pushed_valid r.wire.poped

unfoldable pub has_record : ResultWire → Bool
has_record r = ltb 0 (stored_valid r)

pub record Chunk : Type 0 where
  pub first : List ℕ
  pub wrap_around : List ℕ

-- `get_chunk`, once `copy_header` has read the length
unfoldable pub get_chunk_of : Wire length_kind → ℕ → Chunk
get_chunk_of w pushed_valid =
    let length' = w.header_received.len in
    let start = add_size w.poped length_header_size in
    if (start / w.capacity) == (sub_size (add_size start length') 1 / w.capacity)
    then record {
      first = load w.mem (read_address length_kind w length_header_size) length';
      wrap_around = [];
    }
    else (let buffer_end = (pushed_valid / w.capacity) * w.capacity in
        let first_length = sub_size buffer_end start in
        record {
          first = load w.mem (read_address length_kind w length_header_size) first_length;
          wrap_around =
              load w.mem (read_address length_kind w (add_size length_header_size first_length))
                (length' - first_length);
        })

unfoldable pub get_chunk : ResultWire → Chunk × ResultWire
unfolding get_chunk_of
get_chunk r =
    let w = copy_header length_kind r.wire in (get_chunk_of w r.pushed_valid, record r { wire = w })

unfoldable pub dispose : ResultWire → ResultWire
dispose r =
    let w = copy_header length_kind r.wire in
    record r {
      wire = record w { poped = add_size w.poped (w.header_received.len + length_header_size) };
    }

unfoldable pub set_closed : ResultWire → ResultWire
set_closed r = record r { closed = true }
