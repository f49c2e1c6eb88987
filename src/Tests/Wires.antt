-- ===== src/Tests/Wires.antt =====
-- Request and response wires that hold a message, are closed, or are full.
use tateyama.Base.{
  ℕ, ◌+◌, ◌<◌, ◌≡◌, ◌⊎◌, refl, true, false, none, some, List, [], ◌∷◌, ◌++◌, arith, length,
}
use tateyama.Wire.Ring.{Memory}
use tateyama.Wire.Header.{MessageHeader, ResponseHeader, message_header_size, blank_response_header}
use tateyama.Wire.Header.Kinds.{message_kind, response_kind}
use tateyama.Wire.SimpleWire.{
  Wire, Writing, copy_header, payload, dispose, read_address, view, copy, finished,
}
use tateyama.Wire.SimpleWire.Valid.{IsValid}
use tateyama.Wire.SimpleWire.Chunks.{Pops, part}
use tateyama.Wire.SimpleWire.PayloadView.{payload-dispose, payload_overrun}
use tateyama.Wire.RequestWire
use tateyama.Wire.RequestWire.{
  RequestWire, Peeped, peep, notify, terminate, close, termination_header, shutdown_received,
  timed_out,
}
use tateyama.Wire.RequestWire.Peep.{answers, terminate_once, peep_request_first, close-write}
use tateyama.Wire.ResponseWire
use tateyama.Wire.ResponseWire.{ResponseWire, Awaited, await, notify_shutdown, is_writable}
use tateyama.Wire.ResponseWire.Await.{is_writable_blocks}

abbrev bytes_in_ring : Memory
bytes_in_ring a = a

abbrev request_wire : ℕ → ℕ → MessageHeader → Wire message_kind
request_wire poped pushed h = record {
  capacity = 16;
  mem = bytes_in_ring;
  pushed = pushed;
  poped = poped;
  header_received = h;
  need_dispose = 0;
  copy_of_payload = none;
}

request_wire-IsValid : IsValid message_kind (request_wire 20 31 (record { idx = 0; len = 5 }))
request_wire-IsValid = omega arith

payload-dispose_example :
    let w = request_wire 20 31 (record { idx = 0; len = 5 }) in
    (body : List ℕ) × (length body ≡ 5)
    × Pops message_kind w
        (part message_kind w message_header_size ++ body)
        (dispose message_kind (payload message_kind w).0)
    × (((payload message_kind w).1 ≡ view body)
        ⊎ ((payload message_kind w).1 ≡ copy (finished body)))
payload-dispose_example =
    payload-dispose message_kind request_wire-IsValid (omega arith) (omega arith) refl

-- A body of 20 bytes in a ring of 16, of which the first 10 have been written: the test of
-- `payload` passes.
overrun-IsValid : IsValid message_kind (request_wire 0 16 (record { idx = 0; len = 20 }))
overrun-IsValid = omega arith

payload_overrun_example :
    let w = request_wire 0 16 (record { idx = 0; len = 20 }) in
    ((body : List ℕ) × ((payload message_kind w).1 ≡ view body)
      × (16 < read_address message_kind w message_header_size + length body))
    × ¬ (IsValid message_kind (dispose message_kind (payload message_kind w).0))
payload_overrun_example =
    payload_overrun message_kind overrun-IsValid (omega arith) (omega arith) refl

abbrev requests : ℕ → RequestWire
requests pushed = record {
  wire = request_wire 20 pushed (record { idx = 0; len = 0 });
  termination_requested = false;
  onetime_notification = false;
  closed = false;
}

terminate_once_example :
    let (answer, r') = peep (terminate (requests 20)) false in
    (answer ≡ RequestWire.returns termination_header)
    × ((peep r' false).0 ≡ RequestWire.waits)
    × ((peep r' true).0 ≡ RequestWire.throws timed_out)
terminate_once_example = terminate_once (requests 20) false (omega arith) refl

peep_request_first_example :
    let (answer, r') = peep (notify (terminate (requests 31))) true in
    (answer ≡ RequestWire.returns (copy_header message_kind (requests 31).wire).header_received)
    × (r'.termination_requested ≡ true)
    × (r'.onetime_notification ≡ true)
    × (r'.wire.poped ≡ 20)
    × (answers (record r' { wire = (requests 20).wire }) (true ∷ true ∷ false ∷ [])
        ≡ RequestWire.returns termination_header
          ∷ RequestWire.throws shutdown_received
          ∷ RequestWire.throws shutdown_received
          ∷ [])
peep_request_first_example =
    peep_request_first (requests 31) true true (requests 20).wire (true ∷ false ∷ []) (omega arith)
      (omega arith)

close-write_example :
    RequestWire.write (close (requests 20)) (record { idx = 1; len = 1 }) (5 ∷ [])
    ≡ some (request_wire 20 20 (record { idx = 0; len = 0 }), Writing.abandoned)
close-write_example = close-write (requests 20) (record { idx = 1; len = 1 }) (5 ∷ [])

-- eight of the sixteen bytes are free
abbrev responses : ResponseWire
responses = record {
  wire = record {
    capacity = 16;
    mem = bytes_in_ring;
    pushed = 8;
    poped = 0;
    header_received = blank_response_header;
    need_dispose = 0;
    copy_of_payload = none;
  };
  closed = false;
  shutdown = false;
}

responses-IsValid : IsValid response_kind responses.wire
responses-IsValid = omega arith

abbrev eight_bytes : ResponseHeader
eight_bytes = record { idx = 0; len = 8; msg_type = 1 }

is_writable_blocks_example :
    (is_writable responses eight_bytes ≡ true)
    × (ResponseWire.write responses eight_bytes (1 ∷ 2 ∷ 3 ∷ 4 ∷ 5 ∷ 6 ∷ 7 ∷ 8 ∷ []) ≡ none)
is_writable_blocks_example =
    is_writable_blocks responses eight_bytes (1 ∷ 2 ∷ 3 ∷ 4 ∷ 5 ∷ 6 ∷ 7 ∷ 8 ∷ []) responses-IsValid
      refl (omega arith) (omega arith) (omega arith)
