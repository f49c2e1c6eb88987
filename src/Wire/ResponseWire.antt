-- ===== src/Wire/ResponseWire.antt =====
-- `unidirectional_response_wire` of src/tateyama/endpoint/ipc/wire.h. One pass of the loop of
-- `await` is one call here; the caller says whether the timed wait at its end ran out.
pub mod Await
use tateyama.Base.{ℕ, Bool, true, false, ◌||◌, leb, if◌then◌else◌, Option, none, some, List}
use tateyama.Wire.Header.{ResponseHeader, response_header_size, blank_response_header}
use tateyama.Wire.Header.Kinds.{response_kind}
use tateyama.Wire.SimpleWire.{Wire, Writing, stored, room, copy_header, write_first}

pub record ResponseWire : Type 0 where
  pub wire : Wire response_kind
  pub closed : Bool
  pub shutdown : Bool

pub data Awaited : Type 0 where
  returns : ResponseHeader → Awaited
  throws_timeout waits : Awaited

unfoldable pub await : ResponseWire → Bool → Awaited × ResponseWire
await r timeout =
    if leb response_header_size (stored response_kind r.wire)
    then (let w = copy_header response_kind r.wire in
        (returns w.header_received, record r { wire = w }))
    else if r.closed || r.shutdown
    then (
      returns blank_response_header,
      record r { wire = record (r.wire) { header_received = blank_response_header } },
    )
    else if timeout
    then (throws_timeout, r)
    else (waits, r)

unfoldable pub close : ResponseWire → ResponseWire
close r = record r { closed = true }

unfoldable pub force_close : ResponseWire → ResponseWire
force_close r = record r { closed = true }

unfoldable pub notify_shutdown : ResponseWire → ResponseWire
notify_shutdown r = record r { shutdown = true }

abbrev pub check_shutdown : ResponseWire → Bool
check_shutdown r = r.shutdown

-- `write`, up to the first loop test of `simple_wire::write`
unfoldable pub write :
    ResponseWire → ResponseHeader → List ℕ → Option (Wire response_kind × Writing)
write r header from = write_first response_kind r.wire header from r.closed

unfoldable pub is_writable : ResponseWire → ResponseHeader → Bool
is_writable r header = leb header.len (room response_kind r.wire)
