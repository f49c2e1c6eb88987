-- ===== src/Tests/Endpoints.antt =====
-- The properties of the endpoints at concrete inputs.
use tateyama.Base.{◌<◌, ℕ, ◌≡◌, refl, inl, true, false, none, some, List, [], ◌∷◌, ◌++◌, arith}
use tateyama.Base.{◌⊎◌}
use tateyama.Base.{get_elem?}
use tateyama.Endpoint.Stream.{sending, finished, release_slot, delimiter, response_result_set_bye}
use tateyama.Endpoint.Stream.Slots.{send_all, release_slot-send_all}
use tateyama.Base.Text.{Str}
use tateyama.Endpoint.EndOfRecords.{result_set, write_complete, set_eor, notify_eor_conditional}
use tateyama.Endpoint.EndOfRecords.Signal.{
  Event, acquires, completes, ends, InOrder, happen, run_events, run_events-signals,
}
use tateyama.Endpoint.ResponseWriter
use tateyama.Endpoint.ResponseWriter.{container}
use tateyama.Endpoint.ResponseWriter.Order as Responses
use tateyama.Session.Context.{nothing}
use tateyama.Endpoint.Requests.{
  Pending, Table, request_dissipated, care_reqreses, has_incomplete_response,
}
use tateyama.Endpoint.Requests.Dissipated.{Appears, care_reqreses-has_incomplete_response}
use tateyama.Wire.Header.{bytes_of}
use tateyama.Endpoint.Stream.{bytes, Socket, frame, payload_bytes}
use tateyama.Endpoint.Stream.Receive.{Carries}
use tateyama.Endpoint.Stream.Await.{readable, Vars}
use tateyama.Endpoint.Stream.Await.Sequence.{greetings, hello_oks, Awaits, await-greetings}
use tateyama.Endpoint.Handshake.{
  Authentication, rejects, raises, encrypted_credential, remember_me_credential, ipc_information,
  privileged, does_not_use, HandshakeMessage, handshake_command, Request, Config, ipc, Session,
  handshake, run_command, establish, check_label, check_credential, check_wire_information, reply,
  find_blob_transfer, choose_blob_transfer, answers, returns, no_blob_mode, handshake_error,
  handshake_success, authentication_error, user_or_password_is_incorrect,
}
use tateyama.Endpoint.Handshake.Authorised.{Establishes, handshake-Authorised}
use tateyama.Endpoint.Expiration as Exp
use tateyama.Endpoint.Expiration.{
  Limits, update_authentication, compare_user, serve_update_expiration_time, requested_time,
}
use tateyama.Endpoint.Expiration.Bounds.{Within, serve_update_expiration_time-Within}
use tateyama.Endpoint.Expiration.Renewal.{Renews, update_authentication-Renews}
use tateyama.Endpoint.WireWriter.{writer, release}
use tateyama.Endpoint.WireWriter.Steps.{Step, writes, flushes, rounds, view}
use tateyama.Endpoint.WireWriter.{
  flush, annex, annex_write, annex_flush, extend_queue, flush_last, write, too_large, sink_write,
  sink_flush, thread_round, thread_work, transfer, transfer_rest, transfer_chunk, exhausted,
  is_room,
}
use tateyama.Endpoint.WireWriter.Steps.{step}
use tateyama.Endpoint.WireWriter.Ending.{work}
use tateyama.Endpoint.WireWriter.Delivery.{drain-delivers}
use tateyama.Endpoint.WireWriter.Refinement.{run, drain, promised_records, run-promised}

-- a greeting that carries two bytes, and a request of three bytes for slot 3, in two pieces
abbrev first_segment : Str
first_segment = 1 ∷ 0 ∷ 0 ∷ 2 ∷ 0 ∷ []

abbrev second_segment : Str
second_segment = 0 ∷ 0 ∷ 104 ∷ 105 ∷ 2 ∷ 3 ∷ 0 ∷ 3 ∷ 0 ∷ 0 ∷ 0 ∷ 97 ∷ 98 ∷ 99 ∷ []

abbrev new_socket : Socket
new_socket = record {
  incoming = bytes first_segment ∷ bytes second_segment ∷ [];
  session_closed = false;
  socket_closed = false;
  statuses = [];
  slot_size = 0;
  sent = [];
}

abbrev new_vars : Vars
new_vars = record { info = 0; slot = 0; payload = [] }

abbrev greeting_texts : List Str
greeting_texts = (104 ∷ 105 ∷ []) ∷ []

abbrev request_text : Str
request_text = 97 ∷ 98 ∷ 99 ∷ []

segments-Carries :
    Carries new_socket.incoming (greetings greeting_texts ++ (frame 2 3 request_text ++ []))
unfolding frame payload_bytes bytes_of
segments-Carries = (omega arith, second_segment, refl, (omega arith, [], refl, refl))

await-greetings_example :
    Awaits
      (readable ∷ readable ∷ [])
      new_vars
      new_socket
      ([] ++ hello_oks greeting_texts)
      request_text
      3
      []
await-greetings_example =
    await-greetings greeting_texts [] new_vars new_socket 3 request_text [] segments-Carries refl
      (omega arith, tt) (omega arith) (omega arith)

-- an authentication service that rejects every password, and whose tokens it cannot read
abbrev strict : Authentication
strict = record {
  get_encryption_key = rejects;
  verify_encrypted = λ (t : Str). rejects;
  verify_token = λ (t : Str). raises none (120 ∷ []);
}

abbrev wrong_password : HandshakeMessage
wrong_password = record {
  connection_label = 97 ∷ [];
  application_name = 98 ∷ [];
  credential = encrypted_credential (99 ∷ []);
  wire_information = ipc_information (49 ∷ []);
  blob_transfer_media = privileged ∷ does_not_use ∷ [];
}

abbrev current_request : Request
current_request = record { major = 0; minor = 2; command = handshake_command wrong_password }

abbrev strict_config : Config
strict_config = record {
  connection_type = ipc;
  auth = some strict;
  allow_blob_privileged = false;
  blob_relay_enabled = false;
  blob_relay_service = none;
}

abbrev new_session : Session
new_session = record {
  info = record {
    label = [];
    application_name = [];
    connection_information = [];
    user_name = none;
  };
  max_result_sets = 0;
  blob = no_blob_mode;
  bodies = [];
}

-- it gets past the handshake, without a user name
abbrev unknown_session : Session
unknown_session = record {
  info = record {
    label = 97 ∷ [];
    application_name = 98 ∷ [];
    connection_information = 49 ∷ [];
    user_name = none;
  };
  max_result_sets = 0;
  blob = no_blob_mode;
  bodies =
      handshake_error authentication_error user_or_password_is_incorrect
      ∷ handshake_success none no_blob_mode
      ∷ [];
}

wrong_password-answers :
    handshake strict_config true (some current_request) new_session
    ≡ returns (answers true) unknown_session
unfolding handshake run_command establish check_label check_credential check_wire_information reply
    find_blob_transfer choose_blob_transfer
wrong_password-answers = refl

handshake-Authorised_example : Establishes strict none (some current_request) none
handshake-Authorised_example =
    handshake-Authorised strict_config strict true (some current_request) new_session
      unknown_session refl wrong_password-answers

abbrev limits : Limits
limits = record {
  enable_timeout = true;
  refresh_timeout = 300;
  max_refresh_timeout = 86400;
  expiration_time = some 5000000000000;
  auth = some strict;
  authentication_timer = record {
    timeout = 60;
    enable_timeout = true;
    expiration_time = some 7000000000;
  };
  user_name = some (97 ∷ []);
}

serve_update_expiration_time-Within_example :
    (e : ℕ) × ((serve_update_expiration_time limits (some 10000) 4800000000000).expiration_time
      ≡ some e)
    × Within 4800000000000 300000000000 86400000000000 5000000000000 e
serve_update_expiration_time-Within_example =
    serve_update_expiration_time-Within limits 10000 4800000000000 5000000000000 refl

unreadable_token-success :
    (update_authentication limits (remember_me_credential []) 1000).0 ≡ Exp.update_success
unfolding update_authentication compare_user Exp.check_credential
unreadable_token-success = refl

update_authentication-Renews_example : Renews strict (some (97 ∷ [])) (remember_me_credential [])
update_authentication-Renews_example =
    update_authentication-Renews limits strict (remember_me_credential []) 1000 refl
      (inl unreadable_token-success)

-- a record whose second part finds no room, a round of the thread, and a record of one part
abbrev two_records : List Step
two_records =
    writes true (1 ∷ 2 ∷ [])
    ∷ writes false (3 ∷ [])
    ∷ rounds
    ∷ flushes
    ∷ rounds
    ∷ writes true (4 ∷ [])
    ∷ flushes
    ∷ []

run-promised_example :
    (view (run two_records (writer 16)) ≡ promised_records 16 two_records)
    × (view (drain 3 (release (run two_records (writer 16)))) ≡ promised_records 16 two_records)
run-promised_example =
    run-promised 16 two_records 3
      (omega arith, (omega arith, (tt, (tt, (tt, (omega arith, (tt, tt)))))))

-- one annex is left then, with one finished chunk
few_rounds : work (flush (run two_records (writer 16))).queue < 4
unfolding run step write flush writer too_large extend_queue flush_last annex annex_write
    annex_flush is_room sink_write thread_round thread_work transfer transfer_rest transfer_chunk
    exhausted
few_rounds = omega arith

drain-delivers_example :
    ((drain 4 (release (flush (run two_records (writer 16))))).queue ≡ [])
    × ((drain 4 (release (flush (run two_records (writer 16))))).completed ≡ true)
    × ((drain 4 (release (flush (run two_records (writer 16))))).sink
        ≡ sink_flush (promised_records 16 two_records))
drain-delivers_example =
    drain-delivers 16 two_records 4
      (omega arith, (omega arith, (tt, (tt, (tt, (omega arith, (tt, tt))))))) few_rounds

-- a request that the service dropped without an answer
abbrev dropped : Pending
dropped = record {
  slot = 4;
  request_count = 1;
  response_count = 1;
  response = record { completed = false; has_data_channel = false; cancelled = false };
}

abbrev table : Table
table = record {
  reqreses = record dropped { slot = 2; response_count = 2 } ∷ dropped ∷ [];
  shutdown_responses = [];
  shutdown = nothing;
  cancel_requested = false;
  complete_shutdown_from_client = false;
  notices = [];
}

care_reqreses-has_incomplete_response_example :
    Appears (request_dissipated 4) (care_reqreses table).notices
    × ((care_reqreses (has_incomplete_response table).1).reqreses ≡ (care_reqreses table).reqreses)
    × ((care_reqreses (has_incomplete_response table).1).notices ≡ [])
care_reqreses-has_incomplete_response_example =
    care_reqreses-has_incomplete_response table 1 dropped (omega arith) refl refl refl

-- two writers of which one completes before the end of the result set
abbrev events : List Event
events = acquires ∷ acquires ∷ completes ∷ ends ∷ completes ∷ []

events-InOrder : InOrder events result_set
unfolding happen write_complete set_eor notify_eor_conditional
events-InOrder = (refl, (refl, (omega arith, (tt, (omega arith, tt)))))

run_events-signals_example : (run_events events result_set).signals ≡ 1
run_events-signals_example = run_events-signals events events-InOrder

-- three responses, of which the second does not fit
abbrev responses : List Responses.Step
responses =
    Responses.writes false true (1 ∷ []) (record { idx = 1; msg_type = 1; len = 1 })
    ∷ Responses.writes false false (2 ∷ []) (record { idx = 2; msg_type = 1; len = 1 })
    ∷ Responses.thread
    ∷ Responses.writes true true (3 ∷ []) (record { idx = 3; msg_type = 1; len = 1 })
    ∷ Responses.thread
    ∷ []

run_steps-written_example :
    (Responses.pipeline (Responses.run_steps responses container) ≡ Responses.written responses)
    × (((Responses.run_steps responses container).thread_active ≡ true)
        ⊎ ((Responses.run_steps responses container).wire ≡ Responses.written responses))
run_steps-written_example = Responses.run_steps-written responses

-- What is written on a closed wire is lost.
closed_wire_drops :
    (ResponseWriter.write true true
      (1 ∷ [])
      (record { idx = 1; msg_type = 1; len = 1 })
      (ResponseWriter.close container)).wire
    ≡ []
unfolding ResponseWriter.write ResponseWriter.close
closed_wire_drops = refl

-- a slot whose client closes the result set, and two writers that go on
abbrev sending_socket : Socket
sending_socket = record new_socket { statuses = sending ∷ sending ∷ []; slot_size = 2 }

release_slot-send_all_example :
    (released : Socket) × (after : Socket) × (release_slot sending_socket 1 ≡ some released)
    × (send_all 1 ((0, 1 ∷ []) ∷ (7, 2 ∷ []) ∷ []) released ≡ some after)
    × (after.sent ≡ [] ++ (delimiter 1 0 ++ frame response_result_set_bye 1 []))
    × (get_elem? after.statuses 1 ≡ some finished)
release_slot-send_all_example =
    release_slot-send_all sending_socket 1 0 (1 ∷ []) ((7, 2 ∷ []) ∷ []) refl refl
