-- ===== src/Wire/RequestWire/Peep.antt =====
-- What `peep` answers, and in which order it looks.
use tateyama.Base.{ℕ, ◌≤◌, ◌<◌, ◌≡◌, refl, ap, Bool, true, false, arith, List, [], ◌∷◌, map, some}
use tateyama.Wire.Header.{MessageHeader, message_header_size}
use tateyama.Wire.Header.Kinds.{message_kind}
use tateyama.Wire.SimpleWire.{Wire, stored, copy_header, Writing, write_first}
use tateyama.Wire.RequestWire.{
  RequestWire, Peeped, shutdown_received, returns, throws, waits, timed_out, termination_header,
  peep, notify, terminate, close, write,
}

-- While no request is stored and no notification was given, one `terminate` wakes exactly one
-- `peep`, with the dummy header: the next one waits again, or times out.
pub terminate_once :
    (r : RequestWire) (a : Bool)
    → stored message_kind r.wire < message_header_size
    → r.onetime_notification ≡ false
    → let (answer, r') = peep (terminate r) a in
      (answer ≡ returns termination_header)
      × ((peep r' false).0 ≡ waits)
      × ((peep r' true).0 ≡ throws timed_out)
unfolding peep terminate
terminate_once r a h n = ground arith

-- the answers of one `peep` for each pass, where a pass has its timeout run out or not
unfoldable pub answers : RequestWire → List Bool → List Peeped
unfolding peep
answers r [] = []
answers r (timeout ∷ timeouts) = let (answer, r') = peep r timeout in answer ∷ answers r' timeouts

notified :
    (r : RequestWire) (timeouts : List Bool)
    → stored message_kind r.wire < message_header_size
    → r.termination_requested ≡ false
    → r.onetime_notification ≡ true
    → answers r timeouts ≡ map (λ t. throws shutdown_received) timeouts
unfolding answers peep
notified r [] h t n = refl
notified r (timeout ∷ timeouts) h t n =
    let e : peep r timeout ≡ (throws shutdown_received, r) = ground arith in
    rw (answers, e)
      (ap (λ (ps : List Peeped). throws shutdown_received ∷ ps) (notified r timeouts h t n))

-- A stored request is answered before a termination request, a notification or a timeout, none of
-- which is lost. When the wire is empty after that, with whatever is left on it of less than a header,
-- the next `peep` answers the termination request, and every later one throws for the notification,
-- whether its timeout runs out or not.
pub peep_request_first :
    (r : RequestWire) (timeout later : Bool) (w : Wire message_kind) (timeouts : List Bool)
    → message_header_size ≤ stored message_kind r.wire
    → stored message_kind w < message_header_size
    → let (answer, r') = peep (notify (terminate r)) timeout in
      (answer ≡ returns (copy_header message_kind r.wire).header_received)
      × (r'.termination_requested ≡ true)
      × (r'.onetime_notification ≡ true)
      × (r'.wire.poped ≡ r.wire.poped)
      × (answers (record r' { wire = w }) (later ∷ timeouts)
          ≡ returns termination_header ∷ map (λ t. throws shutdown_received) timeouts)
unfolding peep notify terminate copy_header answers
peep_request_first r timeout later w timeouts h empty = ground (
  arith,
  notified (record r { wire = w; termination_requested = false; onetime_notification = true })
      timeouts empty refl refl,
)

-- On a closed wire no write waits and none changes the wire.
pub close-write :
    (r : RequestWire) (header : MessageHeader) (from : List ℕ)
    → write (close r) header from ≡ some (r.wire, Writing.abandoned)
unfolding write close write_first
close-write r header from = ground arith
