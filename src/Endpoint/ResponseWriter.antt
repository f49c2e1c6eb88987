-- ===== src/Endpoint/ResponseWriter.antt =====
-- `response_wire_container_impl` of src/tateyama/endpoint/ipc/bootstrap/server_wires_impl.h: responses
-- that do not fit the wire go to a queue, and a thread writes them. The wire stands as the responses
-- that it was given (Wire/ResponseWire models it), and whether it is closed; whether a response fits
-- is an input.
pub mod Order
use tateyama.Base.{
  Bool, true, false, ◌||◌, if◌then◌else◌, Option, none, some, List, [], ◌∷◌, ◌++◌, take,
}
use tateyama.Base.Text.{Str}
use tateyama.Wire.Header.{ResponseHeader}

-- the bytes of a response and its header
abbrev pub Response : Type 0
Response = Str × ResponseHeader

-- what is copied from the caller's buffer: as many bytes as the header says
abbrev pub response_of : Str → ResponseHeader → Response
response_of from header = (take header.len from, header)

-- `taken` is the response that the thread has taken from the queue and not written yet.
pub record Container : Type 0 where
  pub wire : List Response
  pub taken : Option Response
  pub responses : List Response
  pub thread_active : Bool
  pub closed : Bool

abbrev pub container : Container
container = record {
  wire = [];
  taken = none;
  responses = [];
  thread_active = false;
  closed = false;
}

-- `wire_->write`, which writes nothing on a closed wire
abbrev pub on_wire : Response → Container → Container
on_wire r c = if c.closed then c else record c { wire = c.wire ++ (r ∷ []) }

-- `close`, by the client
unfoldable pub close : Container → Container
close c = record c { closed = true }

-- `write`, for a response that may wait or not, with the answer of `is_writable`
unfoldable pub write : Bool → Bool → Str → ResponseHeader → Container → Container
write blockable writable from header c =
    let r = response_of from header in
    if c.thread_active
    then record c { responses = c.responses ++ (r ∷ []) }
    else if blockable || writable
    then on_wire r c
    else record c { responses = c.responses ++ (r ∷ []); thread_active = true }

abbrev pub take_response : List Response → Container → Container
take_response [] c = record c { thread_active = false }
take_response (r ∷ rs) c = record c { taken = some r; responses = rs }

abbrev pub thread_turn : Option Response → Container → Container
thread_turn none c = take_response c.responses c
thread_turn (some r) c = on_wire r (record c { taken = none })

-- half a round of the thread: it takes a response, or writes the one that it has
unfoldable pub thread_step : Container → Container
thread_step c = if c.thread_active then thread_turn c.taken c else c
