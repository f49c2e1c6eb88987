-- ===== src/Wire/Header/RoundTrip.antt =====
-- A header that is written to the wire and read back is the same header.
use tateyama.Base.{ℕ, ◌^◌, ◌<◌, ◌≡◌, refl, length, arith}
use tateyama.Wire.Header.{
  bytes_of, value_of, MessageHeader, message_get_buffer, message_from_buffer, ResponseHeader,
  response_get_buffer, response_from_buffer, LengthHeader, length_get_buffer, length_from_buffer,
  message_header_size, response_header_size, length_header_size,
}

pub value_of-bytes_of_2 : (v : ℕ) → v < 2 ^ 16 → value_of (bytes_of 2 v) ≡ v
unfolding bytes_of value_of
value_of-bytes_of_2 v h = omega arith

pub value_of-bytes_of_4 : (v : ℕ) → v < 2 ^ 32 → value_of (bytes_of 4 v) ≡ v
unfolding bytes_of value_of
value_of-bytes_of_4 v h = omega arith

pub length-message_get_buffer :
    (h : MessageHeader) → length (message_get_buffer h) ≡ message_header_size
unfolding message_get_buffer
length-message_get_buffer h = refl

pub length-response_get_buffer :
    (h : ResponseHeader) → length (response_get_buffer h) ≡ response_header_size
unfolding response_get_buffer
length-response_get_buffer h = refl

pub length-length_get_buffer :
    (h : LengthHeader) → length (length_get_buffer h) ≡ length_header_size
unfolding length_get_buffer
length-length_get_buffer h = refl

-- A request header whose index fits 16 bits and whose length fits 32 bits survives
-- `get_buffer` followed by the constructor from a buffer.
pub message_header_round_trip :
    (h : MessageHeader)
    → h.idx < 2 ^ 16
    → h.len < 2 ^ 32
    → message_from_buffer (message_get_buffer h) ≡ h
unfolding message_get_buffer message_from_buffer
message_header_round_trip h p q =
    ground (arith, value_of-bytes_of_2 h.idx p, value_of-bytes_of_4 h.len q)

-- So does a response header whose index and type fit 16 bits and whose length fits 32 bits.
pub response_header_round_trip :
    (h : ResponseHeader)
    → h.idx < 2 ^ 16
    → h.msg_type < 2 ^ 16
    → h.len < 2 ^ 32
    → response_from_buffer (response_get_buffer h) ≡ h
unfolding response_get_buffer response_from_buffer
response_header_round_trip h p r q = ground (
  arith,
  value_of-bytes_of_2 h.idx p,
  value_of-bytes_of_2 h.msg_type r,
  value_of-bytes_of_4 h.len q,
)

pub length_header_round_trip :
    (h : LengthHeader) → h.len < 2 ^ 32 → length_from_buffer (length_get_buffer h) ≡ h
unfolding length_get_buffer length_from_buffer
length_header_round_trip h q = ground (arith, value_of-bytes_of_4 h.len q)
