-- ===== src/Wire/Header.antt =====
-- The fixed-size headers of src/tateyama/endpoint/ipc/wire.h: `message_header` (requests),
-- `response_header` and `length_header` (result sets). Fields are copied to and from the wire by
-- memcpy in the machine's byte order, which is little-endian here.
pub mod RoundTrip
pub mod Kinds
use tateyama.Base.{
  ℕ, zero, suc, ◌+◌, ◌*◌, ◌/◌, ◌%◌, ◌^◌, ◌<◌, ◌≡◌, List, [], ◌∷◌, ◌++◌, length, take, drop,
}

-- the bytes of a `w`-byte unsigned number, and the number that bytes stand for
unfoldable pub bytes_of : ℕ → ℕ → List ℕ
bytes_of zero v = []
bytes_of (suc w) v = (v % 256) ∷ bytes_of w (v / 256)

unfoldable pub value_of : List ℕ → ℕ
value_of [] = 0
value_of (b ∷ bs) = b + 256 * value_of bs

-- What `simple_wire` asks of its header type `T`.
pub record HeaderKind : Type 1 where
  pub Header : Type 0
  pub size : ℕ
  pub blank : Header
  pub get_length : Header → ℕ
  pub get_buffer : Header → List ℕ
  pub from_buffer : List ℕ → Header
  pub InRange : Header → Type 0
  pub size_pos : 0 < size
  pub size_small : size < 16
  pub get_length_small : (h : Header) → InRange h → get_length h < 2 ^ 32
  pub length-get_buffer : (h : Header) → length (get_buffer h) ≡ size
  pub from_buffer-get_buffer : (h : Header) → InRange h → from_buffer (get_buffer h) ≡ h

-- the widths of the fields, in bytes
abbrev pub index_size : ℕ
index_size = 2

abbrev pub msg_type_size : ℕ
msg_type_size = 2

abbrev pub length_size : ℕ
length_size = 4

pub record MessageHeader : Type 0 where
  pub idx : ℕ
  pub len : ℕ

-- the index of the dummy message that stands for a termination request
abbrev pub terminate_request : ℕ
terminate_request = 0xffff

abbrev pub message_header_size : ℕ
message_header_size = length_size + index_size

abbrev pub blank_message_header : MessageHeader
blank_message_header = record { idx = 0; len = 0 }

unfoldable pub message_get_buffer : MessageHeader → List ℕ
unfolding bytes_of
message_get_buffer h = bytes_of index_size h.idx ++ bytes_of length_size h.len

unfoldable pub message_from_buffer : List ℕ → MessageHeader
unfolding value_of
message_from_buffer buffer = record {
  idx = value_of (take index_size buffer);
  len = value_of (take length_size (drop index_size buffer));
}

pub record ResponseHeader : Type 0 where
  pub idx : ℕ
  pub msg_type : ℕ
  pub len : ℕ

abbrev pub response_header_size : ℕ
response_header_size = length_size + index_size + msg_type_size

abbrev pub blank_response_header : ResponseHeader
blank_response_header = record { idx = 0; msg_type = 0; len = 0 }

unfoldable pub response_get_buffer : ResponseHeader → List ℕ
unfolding bytes_of
response_get_buffer h =
    bytes_of index_size h.idx ++ (bytes_of msg_type_size h.msg_type ++ bytes_of length_size h.len)

unfoldable pub response_from_buffer : List ℕ → ResponseHeader
unfolding value_of
response_from_buffer buffer = record {
  idx = value_of (take index_size buffer);
  msg_type = value_of (take msg_type_size (drop index_size buffer));
  len = value_of (take length_size (drop (index_size + msg_type_size) buffer));
}

pub record LengthHeader : Type 0 where
  pub len : ℕ

abbrev pub length_header_size : ℕ
length_header_size = length_size

-- `length_header(std::size_t)` casts to 32 bits.
abbrev pub length_header_of : ℕ → LengthHeader
length_header_of n = record { len = n % 2 ^ 32 }

unfoldable pub length_get_buffer : LengthHeader → List ℕ
unfolding bytes_of
length_get_buffer h = bytes_of length_size h.len

unfoldable pub length_from_buffer : List ℕ → LengthHeader
unfolding value_of
length_from_buffer buffer = record { len = value_of (take length_size buffer) }
