-- ===== src/Endpoint/Stream.antt =====
-- `stream_socket` of src/tateyama/endpoint/stream/stream.h. What the operating system answers to
-- `poll` and to `::recv` is an input of the model; the bytes given to `::send` are the output.
pub mod Receive
pub mod Slots
pub mod Await
use tateyama.Base.{
  ℕ, zero, suc, ◌+◌, ◌-◌, ◌*◌, ◌/◌, ◌%◌, ◌^◌, Bool, true, false, not, ◌&&◌, ◌||◌, ◌==◌, leb, ltb,
  if◌then◌else◌, Option, none, some, List, [], ◌∷◌, ◌++◌, length, take, drop, get_elem?, set,
  replicate,
}
use tateyama.Base.Text.{Str}
use tateyama.Wire.Header.{bytes_of, value_of}

abbrev pub request_session_hello : ℕ
request_session_hello = 1

abbrev pub request_session_payload : ℕ
request_session_payload = 2

abbrev pub request_result_set_bye_ok : ℕ
request_result_set_bye_ok = 3

abbrev pub request_session_bye : ℕ
request_session_bye = 4

abbrev pub request_alive_check : ℕ
request_alive_check = 5

abbrev pub response_session_payload : ℕ
response_session_payload = 1

abbrev pub response_result_set_payload : ℕ
response_result_set_payload = 2

abbrev pub response_session_hello_ok : ℕ
response_session_hello_ok = 3

abbrev pub response_result_set_hello : ℕ
response_result_set_hello = 5

abbrev pub response_result_set_bye : ℕ
response_result_set_bye = 6

abbrev pub response_session_bodyhead : ℕ
response_session_bodyhead = 7

abbrev pub response_session_bye_ok : ℕ
response_session_bye_ok = 8

pub data SendingStatus : Type 0 where
  sending closed finished : SendingStatus

-- One answer of `::recv`: bytes, of which it takes no more than it was asked for, or -1. At the end
-- of the list, and where it has no bytes, it answers 0.
pub data Segment : Type 0 where
  bytes : Str → Segment
  failure : Segment

-- After a -1 the count of received bytes is wrong, and what happens to the buffer is undefined.
pub data Received {ℓ} (A : Type ℓ) : Type ℓ where
  got : A → Received A
  ended undefined : Received A

abbrev prepend : Str → Received Str → Received Str
prepend b (got t) = got (b ++ t)
prepend b ended = ended
prepend b undefined = undefined

abbrev left_over : ℕ → Str → List Segment → List Segment
left_over size b ss = if size == length b then ss else bytes (drop size b) ∷ ss

-- `recv(to, size)`
unfoldable pub recv_bytes : ℕ → List Segment → Received Str × List Segment
recv_bytes size [] = (ended, [])
recv_bytes size (failure ∷ ss) = (undefined, ss)
recv_bytes size (bytes [] ∷ ss) = (ended, ss)
recv_bytes size (bytes (b ∷ bs) ∷ ss) =
    let (r, rest) = recv_bytes (size - length (b ∷ bs)) ss in
    if leb size (length (b ∷ bs))
    then (got (take size (b ∷ bs)), left_over size (b ∷ bs) ss)
    else (prepend (b ∷ bs) r, rest)

-- `recv(payload)`: an empty message leaves the payload as it was.
unfoldable pub recv_payload : Str → List Segment → Received Str × List Segment
unfolding recv_bytes value_of
recv_payload payload segments =
    let (head, rest) = recv_bytes 4 segments in
    elim head [
      | ended ↦ (ended, rest)
      | undefined ↦ (undefined, rest)
      | got h ↦ (if ltb 0 (value_of h) then recv_bytes (value_of h) rest else (got payload, rest))
    ]

-- the bytes that are in the buffer after `recv(to, size)` has failed, from its start
unfoldable pub bytes_before_end : ℕ → List Segment → Str
bytes_before_end size [] = []
bytes_before_end size (failure ∷ ss) = []
bytes_before_end size (bytes [] ∷ ss) = []
bytes_before_end size (bytes (b ∷ bs) ∷ ss) =
    let rest = bytes_before_end (size - length (b ∷ bs)) ss in
    if leb size (length (b ∷ bs)) then take size (b ∷ bs) else (b ∷ bs) ++ rest

-- The caller's string after `recv(payload)` has failed. Where the length came, it was resized, with
-- zeros for new characters, and its beginning holds the bytes that came after the length.
unfoldable pub payload_after_end : Str → List Segment → Str
unfolding recv_bytes value_of bytes_before_end
payload_after_end payload segments =
    let (head, rest) = recv_bytes 4 segments in
    elim head [
      | ended ↦ payload
      | undefined ↦ payload
      | got h ↦
          (let length' = value_of h in
            let resized = take length' (payload ++ replicate length' 0) in
            let came = bytes_before_end length' rest in
            if ltb 0 length' then came ++ drop (length came) resized else payload)
    ]

-- `sent` are the bytes that were given to the socket so far.
pub record Socket : Type 0 where
  pub incoming : List Segment
  pub session_closed : Bool
  pub socket_closed : Bool
  pub statuses : List SendingStatus
  pub slot_size : ℕ
  pub sent : Str

-- `send_payload`, with the length in front
unfoldable pub payload_bytes : Str → Str
unfolding bytes_of
payload_bytes payload = bytes_of 4 (length payload) ++ payload

-- a whole message, as `send_response` writes it, and as the client writes its own
unfoldable pub frame : ℕ → ℕ → Str → Str
unfolding payload_bytes bytes_of
frame info slot payload = info ∷ (bytes_of 2 slot ++ payload_bytes payload)

unfoldable pub send_response : Socket → ℕ → ℕ → Str → Bool → Socket
unfolding frame
send_response s info slot payload force =
    if s.session_closed && not force
    then s
    else record s { sent = s.sent ++ frame info slot payload }

-- `send_result_set_delimiter`: an empty result set message
abbrev pub delimiter : ℕ → ℕ → Str
delimiter slot writer = response_result_set_payload ∷ (bytes_of 2 slot ++ (writer ∷ bytes_of 4 0))

unfoldable pub send_result_set_delimiter : Socket → ℕ → ℕ → Socket
unfolding bytes_of
send_result_set_delimiter s slot writer = record s { sent = s.sent ++ delimiter slot writer }

-- `send(slot, payload, body)`
unfoldable pub send_message : Socket → ℕ → Str → Bool → Socket
unfolding send_response
send_message s slot payload body =
    send_response s (if body then response_session_payload else response_session_bodyhead) slot
      payload false

-- `none` is std::out_of_range of `sending_.at(slot)`.
unfoldable pub send_result_set_hello : Socket → ℕ → Str → Option Socket
unfolding send_response
send_result_set_hello s slot name = elim (get_elem? s.statuses slot) [
  | none ↦ none
  | some status ↦ some (
      send_response (record s { statuses = set s.statuses slot sending }) response_result_set_hello
        slot name false)
]

unfoldable pub send_result_set_bye : Socket → ℕ → Socket
unfolding send_response
send_result_set_bye s slot = send_response s response_result_set_bye slot [] false

unfoldable pub send_session_bye_ok : Socket → Socket
unfolding send_response
send_session_bye_ok s = send_response s response_session_bye_ok 0 [] true

-- the part of `send(slot, writer, payload)` for a slot that is sending
unfoldable pub send_records : Socket → ℕ → ℕ → Str → Socket
unfolding payload_bytes bytes_of send_result_set_delimiter
send_records s slot writer payload =
    let body =
      response_result_set_payload ∷ (bytes_of 2 slot ++ (writer ∷ payload_bytes payload)) in
    if s.session_closed
    then s
    else send_result_set_delimiter
        (if ltb 0 (length payload) then record s { sent = s.sent ++ body } else s) slot writer

-- `send(slot, writer, payload)`
unfoldable pub send_result_set : Socket → ℕ → ℕ → Str → Option Socket
unfolding send_records send_result_set_delimiter send_result_set_bye
send_result_set s slot writer payload = elim (get_elem? s.statuses slot) [
  | none ↦ none
  | some sending ↦ some (send_records s slot writer payload)
  | some closed ↦
      (let early = send_result_set_bye (send_result_set_delimiter s slot writer) slot in
        some (record early { statuses = set early.statuses slot finished }))
  | some finished ↦ some s
]

unfoldable pub close : Socket → Socket
close s = record s { socket_closed = true }

unfoldable pub change_slot_size : Socket → ℕ → Socket
change_slot_size s index =
    if ltb s.slot_size (index + 1)
    then record s {
      slot_size = index + 1;
      statuses = s.statuses ++ replicate (index + 1 - length s.statuses) sending;
    }
    else s

unfoldable pub is_sending : Socket → ℕ → Option Bool
is_sending s slot = elim (get_elem? s.statuses slot) [
  | none ↦ none
  | some sending ↦ some true
  | some closed ↦ some false
  | some finished ↦ some false
]

unfoldable pub release_slot : Socket → ℕ → Option Socket
release_slot s slot = elim (get_elem? s.statuses slot) [
  | none ↦ none
  | some sending ↦ some (record s { statuses = set s.statuses slot closed })
  | some closed ↦ some s
  | some finished ↦ some s
]
