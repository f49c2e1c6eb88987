-- ===== src/Endpoint/Stream/Await.antt =====
-- `stream_socket::await` of src/tateyama/endpoint/stream/stream.h: the loop over the messages of the
-- client. The variables `slot` and `payload` belong to the caller, and keep what an earlier round of
-- the loop left in them; so does `info` from round to round.
pub mod Frames
pub mod Sequence
use tateyama.Base.{ℕ, Bool, true, false, ◌==◌, if◌then◌else◌, Option, none, some, List, [], ◌∷◌}
use tateyama.Base.Text.{Str}
use tateyama.Wire.Header.{value_of}
use tateyama.Endpoint.Stream.{
  Segment, bytes, failure, Received, got, ended, undefined, recv_bytes, recv_payload,
  payload_after_end, Socket, send_response, release_slot, close, request_session_hello,
  request_session_payload, request_result_set_bye_ok, request_session_bye, request_alive_check,
  response_session_hello_ok,
}

pub data AwaitResult : Type 0 where
  payload timeout socket_closed termination_request illegal_message : AwaitResult

-- an error of `poll`, std::out_of_range, and what the program does not define
pub data AwaitError : Type 0 where
  error_in_poll out_of_range undefined_behaviour : AwaitError

-- What `poll` answers: the timeout, an error, POLLPRI with whether `::recv` of the urgent byte
-- fails, POLLIN, or events that are neither.
pub data Poll : Type 0 where
  timed_out poll_fails : Poll
  urgent : Bool → Poll
  readable neither : Poll

pub record Vars : Type 0 where
  pub info : ℕ
  pub slot : ℕ
  pub payload : Str

pub data Round : Type 0 where
  finishes : AwaitResult → Round
  throws : AwaitError → Round
  continues : Round

abbrev pub Answer : Type 0
Answer = Round × Vars × Socket

-- after the attempt to read the rest of a message
abbrev pub after_payload : Received Str → Vars → Socket → (Str → Answer) → Answer
after_payload (got p) v s f = f p
after_payload ended v s f = (finishes socket_closed, v, s)
after_payload undefined v s f = (throws undefined_behaviour, v, s)

-- -1 as a decimal number
abbrev minus_one : Str
minus_one = 45 ∷ 49 ∷ []

-- The switch on the type of the message. A failed `recv(payload)` leaves the payload resized, and
-- the bytes in it that came; the payload of REQUEST_RESULT_SET_BYE_OK goes to a string of its own.
unfoldable pub dispatch : Vars → Socket → Answer
unfolding recv_payload payload_after_end send_response release_slot close
dispatch v s =
    let (received, rest) = recv_payload v.payload s.incoming in
    let (dummy, rest_of_dummy) = recv_payload [] s.incoming in
    let failed = record v { payload = payload_after_end v.payload s.incoming } in
    let taken = record s { incoming = rest } in
    let taken_dummy = record s { incoming = rest_of_dummy } in
    if v.info == request_session_payload
    then after_payload received failed taken
        (λ p. (finishes payload, record v { payload = p }, taken))
    else if v.info == request_result_set_bye_ok
    then after_payload dummy v taken_dummy (λ p. elim (release_slot taken_dummy v.slot) [
      | none ↦ (throws out_of_range, v, taken_dummy)
      | some s' ↦ (continues, v, s')
    ])
    else if v.info == request_session_hello
    then elim received [
      | got p ↦ (
        continues,
        record v { payload = p },
        send_response taken response_session_hello_ok 0 minus_one false,
      )
      | ended ↦ (continues, failed, taken)
      | undefined ↦ (throws undefined_behaviour, v, taken)
    ]
    else if v.info == request_session_bye
    then after_payload received failed taken (λ p. (
      finishes termination_request,
      record v { payload = p },
      record taken { session_closed = true },
    ))
    else if v.info == request_alive_check
    then (continues, v, s)
    else (finishes illegal_message, v, close s)

-- the two bytes of the slot, and the switch
unfoldable pub read_slot : Vars → Socket → Answer
unfolding recv_bytes value_of dispatch
read_slot v s =
    let (received, rest) = recv_bytes 2 s.incoming in
    let taken = record s { incoming = rest } in
    after_payload received v taken (λ b. dispatch (record v { slot = value_of b }) taken)

-- The byte of the message type. At an error of `::recv` the type stays what it was.
unfoldable pub read_info : Vars → Socket → Answer
unfolding recv_bytes read_slot
read_info v s =
    let (received, rest) = recv_bytes 1 s.incoming in
    let taken = record s { incoming = rest } in
    elim received [
      | ended ↦ (finishes socket_closed, v, taken)
      | undefined ↦ read_slot v taken
      | got b ↦ read_slot (record v { info = value_of b }) taken
    ]

unfoldable pub round : Poll → Vars → Socket → Answer
unfolding read_info dispatch
round timed_out v s = (finishes timeout, v, s)
round poll_fails v s = (throws error_in_poll, v, s)
round (urgent true) v s = (finishes socket_closed, v, s)
round (urgent false) v s = (finishes timeout, v, s)
round readable v s = read_info v s
round neither v s = dispatch v s

-- `await`, over the answers of `poll`; `none` while it waits
unfoldable pub await : List Poll → Vars → Socket → Option Answer
unfolding round
await [] v s = none
await (p ∷ ps) v s =
    let (outcome, v', s') = round p v s in
    elim outcome [
      | finishes r ↦ some (finishes r, v', s')
      | throws x ↦ some (throws x, v', s')
      | continues ↦ await ps v' s'
    ]
