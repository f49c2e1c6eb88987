-- ===== src/Wire/Header/Kinds.antt =====
-- The three header classes as instances of what `simple_wire` asks of its header type.
use tateyama.Base.{◌^◌, ◌<◌, arith}
use tateyama.Wire.Header.{
  HeaderKind, MessageHeader, message_get_buffer, message_from_buffer, message_header_size,
  blank_message_header, ResponseHeader, response_get_buffer, response_from_buffer,
  response_header_size, blank_response_header, LengthHeader, length_get_buffer, length_from_buffer,
  length_header_size, length_header_of,
}
use tateyama.Wire.Header.RoundTrip.{
  length-message_get_buffer, length-response_get_buffer, length-length_get_buffer,
  message_header_round_trip, response_header_round_trip, length_header_round_trip,
}

pub record MessageInRange (h : MessageHeader) : Type 0 where
  pub idx_fits : h.idx < 2 ^ 16
  pub len_fits : h.len < 2 ^ 32

pub record ResponseInRange (h : ResponseHeader) : Type 0 where
  pub idx_fits : h.idx < 2 ^ 16
  pub type_fits : h.msg_type < 2 ^ 16
  pub len_fits : h.len < 2 ^ 32

pub sizes_pos : (0 < message_header_size) × (0 < response_header_size) × (0 < length_header_size)
sizes_pos = omega arith

pub sizes_small :
    (message_header_size < 16) × (response_header_size < 16) × (length_header_size < 16)
sizes_small = omega arith

abbrev pub message_kind : HeaderKind
message_kind = record {
  Header = MessageHeader;
  size = message_header_size;
  blank = blank_message_header;
  get_length = λ h. h.len;
  get_buffer = message_get_buffer;
  from_buffer = message_from_buffer;
  InRange = MessageInRange;
  size_pos = sizes_pos.0;
  size_small = sizes_small.0;
  get_length_small = λ h r. r.len_fits;
  length-get_buffer = length-message_get_buffer;
  from_buffer-get_buffer = λ h r. message_header_round_trip h r.idx_fits r.len_fits;
}

abbrev pub response_kind : HeaderKind
response_kind = record {
  Header = ResponseHeader;
  size = response_header_size;
  blank = blank_response_header;
  get_length = λ h. h.len;
  get_buffer = response_get_buffer;
  from_buffer = response_from_buffer;
  InRange = ResponseInRange;
  size_pos = sizes_pos.1;
  size_small = sizes_small.1;
  get_length_small = λ h r. r.len_fits;
  length-get_buffer = length-response_get_buffer;
  from_buffer-get_buffer = λ h r. response_header_round_trip h r.idx_fits r.type_fits r.len_fits;
}

abbrev pub length_kind : HeaderKind
length_kind = record {
  Header = LengthHeader;
  size = length_header_size;
  blank = length_header_of 0;
  get_length = λ h. h.len;
  get_buffer = length_get_buffer;
  from_buffer = length_from_buffer;
  InRange = λ h. h.len < 2 ^ 32;
  size_pos = sizes_pos.2;
  size_small = sizes_small.2;
  get_length_small = λ h r. r;
  length-get_buffer = length-length_get_buffer;
  from_buffer-get_buffer = length_header_round_trip;
}
