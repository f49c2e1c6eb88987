-- ===== src/Endpoint/Handshake/Message.antt =====
-- What a handshake is made of: the request as protobuf reads it, the answers of the authentication
-- service, the configuration and the session, of src/tateyama/endpoint/common.
use tateyama.Base.{ℕ, Bool, Option, none, some, List, if◌then◌else◌}
use tateyama.Base.Text.{Str}

-- `diagnostics::Code` of the protocol, as far as the code names it, and what the authentication
-- service may choose
pub data Code : Type 0 where
  illegal_state invalid_request system_error unsupported_operation authentication_error : Code
  other_code : ℕ → Code

-- what the authentication service answers to a question for a name or a key
pub data Verdict : Type 0 where
  accepts : Str → Verdict
  rejects : Verdict
  raises : Option Code → Str → Verdict

pub record Authentication : Type 0 where
  pub get_encryption_key : Verdict
  pub verify_encrypted : Str → Verdict
  pub verify_token : Str → Verdict

pub data Credential : Type 0 where
  encrypted_credential remember_me_credential : Str → Credential
  no_credential : Credential

pub data WireInformation : Type 0 where
  ipc_information : Str → WireInformation
  stream_information : ℕ → WireInformation
  wire_information_not_set : WireInformation

pub data BlobTransfer : Type 0 where
  privileged relay does_not_use unspecified : BlobTransfer

pub record HandshakeMessage : Type 0 where
  pub connection_label : Str
  pub application_name : Str
  pub credential : Credential
  pub wire_information : WireInformation
  pub blob_transfer_media : List BlobTransfer

pub data Command : Type 0 where
  encryption_key : Command
  handshake_command : HandshakeMessage → Command
  other_command : Command

pub record Request : Type 0 where
  pub major : ℕ
  pub minor : ℕ
  pub command : Command

-- the texts of the errors
pub data Problem : Type 0 where
  handshake_is_required request_parse_error unsupported_service_message_version bad_request :
      Problem
  invalid_connection_label user_or_password_is_incorrect token_is_incorrect no_valid_credential :
      Problem
  bad_wire_information illegal_connection_type get_encryption_key_failed authentication_is_off :
      Problem
  blob_transfer_is_unavailable : List BlobTransfer → Problem
  what : Str → Problem

-- how the blobs of the session go, as the answer says it; a relay has the id of its blob session
pub data BlobMode : Type 0 where
  no_blob_mode privileged_mode : BlobMode
  relay_mode : ℕ → BlobMode

pub data Body : Type 0 where
  handshake_error : Code → Problem → Body
  handshake_success : Option Str → BlobMode → Body
  encryption_key_success : Str → Body
  encryption_key_error : Code → Problem → Body

pub data ConnectionType : Type 0 where
  ipc stream other_connection : ConnectionType

-- `create_session` of the relay service answers the id of the session that it makes.
pub record Config : Type 0 where
  pub connection_type : ConnectionType
  pub auth : Option Authentication
  pub allow_blob_privileged : Bool
  pub blob_relay_enabled : Bool
  pub blob_relay_service : Option ℕ

pub record SessionInfo : Type 0 where
  pub label : Str
  pub application_name : Str
  pub connection_information : Str
  pub user_name : Option Str

pub data UserType : Type 0 where
  administrator standard : UserType

-- `session_info_impl::user_type`
abbrev pub user_type : (Str → Bool) → SessionInfo → UserType
user_type is_administrator i = elim i.user_name [
  | some name ↦ (if is_administrator name then administrator else standard)
  | none ↦ administrator
]

pub record Session : Type 0 where
  pub info : SessionInfo
  pub max_result_sets : ℕ
  pub blob : BlobMode
  pub bodies : List Body
