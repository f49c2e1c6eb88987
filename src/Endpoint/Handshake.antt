-- ===== src/Endpoint/Handshake.antt =====
-- `worker_common::handshake` of src/tateyama/endpoint/common/worker_common.h, which every session
-- begins with. What protobuf reads from the message and what the authentication service answers are
-- inputs; the bodies given to the response are a list, in the order of the calls.
pub mod Authorised
pub mod Message
pub use Message.*
use tateyama.Base.{
  ℕ, ◌+◌, Bool, true, false, not, ◌&&◌, ◌||◌, ◌==◌, ltb, if◌then◌else◌, Option, none, some, List,
  [], ◌∷◌, ◌++◌,
}
use tateyama.Base.Text.{Str}

-- how `handshake` ends: with its answer, or with the exception by which the worker waits for the
-- next message
pub data Outcome : Type 0 where
  answers : Bool → Outcome
  continues : Outcome

pub data Flow : Type 0 where
  proceeds : Session → Flow
  returns : Outcome → Session → Flow

infixl 5 ◌>>=◌
abbrev pub ◌>>=◌ : Flow → (Session → Flow) → Flow
proceeds s >>= f = f s
returns o s >>= f = returns o s

abbrev pub body : Session → Body → Session
body s b = record s { bodies = s.bodies ++ (b ∷ []) }

-- `handshake_error` and `return false`
abbrev pub fails : Session → Code → Problem → Flow
fails s code p = returns (answers false) (body s (handshake_error code p))

unfoldable pub send_encryption_key : Config → Session → Flow
send_encryption_key c s = elim c.auth [
  | none ↦
      returns continues (body s (encryption_key_error unsupported_operation authentication_is_off))
  | some a ↦ elim a.get_encryption_key [
    | accepts key ↦ returns continues (body s (encryption_key_success key))
    | rejects ↦
        returns (answers false)
          (body s (encryption_key_error system_error get_encryption_key_failed))
    | raises code text ↦
        returns (answers false) (body s (encryption_key_error system_error (what text)))
  ]
]

abbrev pub with_user_name : Session → Str → Session
with_user_name s name = record s { info = record (s.info) { user_name = some name } }

abbrev pub encrypted_result : Verdict → Session → Flow
encrypted_result (accepts name) s = proceeds (with_user_name s name)
encrypted_result rejects s =
    proceeds (body s (handshake_error authentication_error user_or_password_is_incorrect))
encrypted_result (raises code message) s = fails s authentication_error (what message)

abbrev pub token_result : Verdict → Session → Flow
token_result (accepts name) s = proceeds (with_user_name s name)
token_result rejects s = fails s authentication_error token_is_incorrect
token_result (raises (some code) message) s = fails s code (what message)
token_result (raises none message) s = fails s authentication_error (what message)

-- the switch on the kind of credential, where authentication is on
unfoldable pub check_credential : Authentication → Credential → Session → Flow
check_credential a (encrypted_credential text) s = encrypted_result (a.verify_encrypted text) s
check_credential a (remember_me_credential text) s = token_result (a.verify_token text) s
check_credential a no_credential s = fails s authentication_error no_valid_credential

unfoldable pub check_wire_information : ConnectionType → WireInformation → Session → Flow
check_wire_information ipc (ipc_information text) s =
    proceeds (record s { info = record (s.info) { connection_information = text } })
check_wire_information ipc (stream_information n) s = fails s invalid_request bad_wire_information
check_wire_information ipc wire_information_not_set s = fails s invalid_request bad_wire_information
check_wire_information stream (stream_information n) s = proceeds (record s { max_result_sets = n })
check_wire_information stream (ipc_information text) s =
    fails s invalid_request bad_wire_information
check_wire_information stream wire_information_not_set s =
    fails s invalid_request bad_wire_information
check_wire_information other_connection w s = fails s invalid_request illegal_connection_type

-- The first medium of the list that the configuration allows; `none` if there is none.
unfoldable pub choose_blob_transfer : Config → List BlobTransfer → Option BlobMode
choose_blob_transfer c [] = none
choose_blob_transfer c (privileged ∷ es) =
    let rest = choose_blob_transfer c es in
    if c.allow_blob_privileged then some privileged_mode else rest
choose_blob_transfer c (relay ∷ es) =
    let rest = choose_blob_transfer c es in
    if c.blob_relay_enabled
    then elim c.blob_relay_service [ none ↦ rest | some id ↦ some (relay_mode id) ]
    else rest
choose_blob_transfer c (does_not_use ∷ es) = some no_blob_mode
choose_blob_transfer c (unspecified ∷ es) = choose_blob_transfer c es

unfoldable pub find_blob_transfer : Config → Request → List BlobTransfer → Option BlobMode
unfolding choose_blob_transfer
find_blob_transfer c rq media =
    if (rq.major == 0) && ltb rq.minor 2
    then some (if c.allow_blob_privileged then privileged_mode else no_blob_mode)
    else choose_blob_transfer c media

abbrev pub set_blob : BlobMode → Session → Session
set_blob no_blob_mode s = s
set_blob privileged_mode s = record s { blob = privileged_mode }
set_blob (relay_mode id) s = record s { blob = relay_mode id }

-- the answer, with the blob transfer that it names
unfoldable pub reply : Config → Request → List BlobTransfer → Session → Flow
unfolding find_blob_transfer
reply c rq media s = elim (find_blob_transfer c rq media) [
  | none ↦ fails s unsupported_operation (blob_transfer_is_unavailable media)
  | some mode ↦
      returns (answers true) (body (set_blob mode s) (handshake_success s.info.user_name mode))
]

-- the byte `:`
abbrev colon : ℕ
colon = 58

unfoldable pub check_label : HandshakeMessage → Session → Flow
check_label m s = elim m.connection_label [
  | [] ↦ proceeds s
  | b ∷ bs ↦ (if b == colon then fails s invalid_request invalid_connection_label else proceeds s)
]

abbrev pub set_names : HandshakeMessage → Session → Session
set_names m s = record s {
  info = record (s.info) { label = m.connection_label; application_name = m.application_name };
}

-- the part of `handshake` behind `case kHandshake`
unfoldable pub establish : Config → Request → HandshakeMessage → Session → Flow
unfolding check_label check_credential check_wire_information reply
establish c rq m s = do
  labelled ← check_label m s
  let named = set_names m labelled
  verified ← elim c.auth [ none ↦ proceeds named | some a ↦ check_credential a m.credential named ]
  wired ← check_wire_information c.connection_type m.wire_information verified
  reply c rq m.blob_transfer_media wired

-- the newest version of the service messages that is understood
abbrev version_major : ℕ
version_major = 0

abbrev version_minor : ℕ
version_minor = 2

-- the switch on the command of the message
unfoldable pub run_command : Config → Request → Command → Session → Flow
unfolding send_encryption_key establish
run_command c rq encryption_key s = send_encryption_key c s
run_command c rq (handshake_command m) s = establish c rq m s
run_command c rq other_command s = fails s invalid_request bad_request

-- The Boolean says that the service id is the one of the endpoint; a message that protobuf
-- cannot read is `none`.
unfoldable pub handshake : Config → Bool → Option Request → Session → Flow
unfolding run_command
handshake c false parsed s = fails s illegal_state handshake_is_required
handshake c true none s = fails s invalid_request request_parse_error
handshake c true (some rq) s =
    if ltb version_major rq.major || ((rq.major == version_major) && ltb version_minor rq.minor)
    then fails s invalid_request unsupported_service_message_version
    else run_command c rq rq.command s
