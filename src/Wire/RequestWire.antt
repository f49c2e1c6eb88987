-- ===== src/Wire/RequestWire.antt =====
-- `unidirectional_message_wire` of src/tateyama/endpoint/ipc/wire.h: requests, with the two ways in
-- which the server wakes its worker up. One pass of the loop of `peep` is one call here; the caller
-- says whether the timed wait at the end of the pass ran out.
pub mod Peep
use tateyama.Base.{ℕ, Bool, true, false, leb, if◌then◌else◌, Option, none, some, List}
use tateyama.Wire.Header.{MessageHeader, terminate_request, message_header_size}
use tateyama.Wire.Header.Kinds.{message_kind}
use tateyama.Wire.SimpleWire.{Wire, Writing, stored, copy_header, write_first}

pub record RequestWire : Type 0 where
  pub wire : Wire message_kind
  pub termination_requested : Bool
  pub onetime_notification : Bool
  pub closed : Bool

-- the exceptions of `peep`
pub data PeepError : Type 0 where
  shutdown_received timed_out : PeepError

pub data Peeped : Type 0 where
  returns : MessageHeader → Peeped
  throws : PeepError → Peeped
  waits : Peeped

abbrev pub termination_header : MessageHeader
termination_header = record { idx = terminate_request; len = 0 }

unfoldable pub peep : RequestWire → Bool → Peeped × RequestWire
peep r timeout =
    if leb message_header_size (stored message_kind r.wire)
    then (let w = copy_header message_kind r.wire in
        (returns w.header_received, record r { wire = w }))
    else if r.termination_requested
    then (returns termination_header, record r { termination_requested = false })
    else if r.onetime_notification
    then (throws shutdown_received, r)
    else if timeout
    then (throws timed_out, r)
    else (waits, r)

unfoldable pub notify : RequestWire → RequestWire
notify r = record r { onetime_notification = true }

unfoldable pub close : RequestWire → RequestWire
close r = record r { closed = true }

unfoldable pub terminate : RequestWire → RequestWire
terminate r = record r { termination_requested = true }

-- `write`, up to the first loop test of `simple_wire::write`
unfoldable pub write : RequestWire → MessageHeader → List ℕ → Option (Wire message_kind × Writing)
write r header from = write_first message_kind r.wire header from r.closed
