-- ===== src/Wire/ResponseWire/Await.antt =====
-- The answers of `await`, and what `is_writable` promises.
use tateyama.Base.{ℕ, ◌+◌, ◌≤◌, ◌<◌, ◌≡◌, Bool, true, false, arith, List, none}
use tateyama.Wire.Header.{ResponseHeader, response_header_size, blank_response_header}
use tateyama.Wire.Header.Kinds.{response_kind}
use tateyama.Wire.SimpleWire.{stored, room, copy_header, write_first}
use tateyama.Wire.SimpleWire.Valid.{IsValid}
use tateyama.Wire.ResponseWire.{ResponseWire, returns, await, notify_shutdown, write, is_writable}

-- A response that arrived before the close or the shutdown is still answered, and once nothing is
-- stored every `await` answers the blank header at once, whether its timer has run out or not.
await_after_shutdown :
    (r : ResponseWire) (timeout later : Bool)
    → let (answer, r') = await (notify_shutdown r) timeout in
      (response_header_size ≤ stored response_kind r.wire
        → answer ≡ returns (copy_header response_kind r.wire).header_received)
      × (stored response_kind r.wire < response_header_size
          → (answer ≡ returns blank_response_header)
            × ((await r' later).0 ≡ returns blank_response_header))
unfolding await notify_shutdown
await_after_shutdown r timeout later = (ground arith, λ h. ground arith)

-- `is_writable` leaves the header out of account: where the room is enough for the body alone, it
-- answers true, and yet `write` of the same message has to wait.
pub is_writable_blocks :
    (r : ResponseWire) (header : ResponseHeader) (from : List ℕ)
    → IsValid response_kind r.wire
    → r.closed ≡ false
    → header.len + response_header_size ≤ r.wire.capacity
    → header.len ≤ room response_kind r.wire
    → room response_kind r.wire < header.len + response_header_size
    → (is_writable r header ≡ true) × (write r header from ≡ none)
unfolding is_writable write write_first
is_writable_blocks r header from v c fits body whole = ground arith
