-- ===== src/Tests/Transfers.antt =====
-- A transfer of two requests, one of them longer than the ring, and tests of the headers.
use tateyama.Base.{◌+◌, ◌<◌, ◌≡◌, refl, Option, none, some, List, [], ◌∷◌, ◌++◌, arith, length, All}
use tateyama.Base.Words.{size_mod}
use tateyama.Wire.Header.{message_get_buffer, message_from_buffer, ResponseHeader}
use tateyama.Wire.Header.Kinds.{message_kind}
use tateyama.Wire.SimpleWire.{
  Wire, stored, write_first, write_rest, write_more, read_first, read_rest, read_more, copy_header,
}
use tateyama.Wire.SimpleWire.Valid.{IsValid}
use tateyama.Wire.Ring.{Memory, write_in_buffer, read_from_buffer}
use tateyama.Wire.Transfer.{
  Message, Channel, Steps, here, next, sends, receives, opened, send, receive, send_from,
  receive_from, wrote, took,
}
use tateyama.Wire.Transfer.Invariant.{IsSound, all_chunks}
use tateyama.Wire.Transfer.Chunking.{chunks, chunks_from, flatten}
use tateyama.Wire.Transfer.Delivery.{delivers_in_order, delivers_everything}

abbrev blank_memory : Memory
blank_memory a = 0

abbrev ring : Wire message_kind
ring = record {
  capacity = 8;
  mem = blank_memory;
  pushed = 5;
  poped = 5;
  header_received = record { idx = 0; len = 0 };
  need_dispose = 0;
  copy_of_payload = none;
}

ring-IsValid : IsValid message_kind ring
ring-IsValid = omega arith

-- the first needs two chunks, the second goes round the ring's end
abbrev long_request : Message message_kind
long_request = record { header = record { idx = 3; len = 5 }; body = 1 ∷ 2 ∷ 3 ∷ 4 ∷ 5 ∷ [] }

abbrev short_request : Message message_kind
short_request = record { header = record { idx = 258; len = 1 }; body = 9 ∷ [] }

abbrev requests : List (Message message_kind)
requests = long_request ∷ short_request ∷ []

requests-IsSound : All (IsSound message_kind 8) requests
requests-IsSound = (
  record { in_range = omega arith; whole = refl },
  (record { in_range = omega arith; whole = refl }, tt),
)

counted : ring.pushed + length (flatten (all_chunks message_kind 8 requests)) < size_mod
unfolding chunks chunks_from flatten message_get_buffer
counted = omega arith

abbrev or_same : Channel message_kind → Option (Channel message_kind) → Channel message_kind
or_same c none = c
or_same c (some d) = d

abbrev first_chunk : Channel message_kind
first_chunk =
    or_same (opened message_kind ring requests)
      (send message_kind (opened message_kind ring requests))

abbrev first_taken : Channel message_kind
first_taken = or_same first_chunk (receive message_kind first_chunk)

abbrev second_chunk : Channel message_kind
second_chunk = or_same first_taken (send message_kind first_taken)

abbrev second_taken : Channel message_kind
second_taken = or_same second_chunk (receive message_kind second_chunk)

abbrev third_chunk : Channel message_kind
third_chunk = or_same second_taken (send message_kind second_taken)

abbrev all_taken : Channel message_kind
all_taken = or_same third_chunk (receive message_kind third_chunk)

two_steps : Steps message_kind (opened message_kind ring requests) second_chunk
unfolding send receive send_from receive_from wrote took write_first write_rest write_more
    read_first read_rest read_more copy_header opened write_in_buffer read_from_buffer
    message_get_buffer message_from_buffer
two_steps = next (next (next here (sends refl)) (receives refl)) (sends refl)

all_steps : Steps message_kind (opened message_kind ring requests) all_taken
unfolding send receive send_from receive_from wrote took write_first write_rest write_more
    read_first read_rest read_more copy_header opened write_in_buffer read_from_buffer
    message_get_buffer message_from_buffer
all_steps = next (next (next two_steps (receives refl)) (sends refl)) (receives refl)

delivers_in_order_example :
    (rest : List (Message message_kind)) × (requests ≡ second_chunk.delivered ++ rest)
delivers_in_order_example =
    delivers_in_order message_kind ring-IsValid requests refl requests-IsSound counted two_steps

delivers_everything_example :
    (all_taken.delivered ≡ requests) × (stored message_kind all_taken.wire ≡ 0)
unfolding send receive send_from receive_from wrote took write_first write_rest write_more
    read_first read_rest read_more copy_header opened write_in_buffer read_from_buffer
    message_get_buffer message_from_buffer
delivers_everything_example =
    delivers_everything message_kind ring-IsValid requests refl requests-IsSound counted all_steps
      refl refl

abbrev answer : ResponseHeader
answer = record { idx = 65535; len = 70000; msg_type = 2 }
