-- ===== src/Endpoint/Expiration.antt =====
-- The times at which a session and its authentication expire, in `worker_common` of
-- src/tateyama/endpoint/common/worker_common.h: what moves them, and what the client is told.
pub mod Bounds
pub mod Renewal
use tateyama.Base.{
  ℕ, ◌+◌, ◌*◌, ◌^◌, Bool, true, false, not, ◌||◌, ltb, if◌then◌else◌, Option, none, some, List, [],
  ◌∷◌,
}
use tateyama.Base.Text.{Str, str_eq}
use tateyama.Endpoint.AliveTimer as Timer
use tateyama.Endpoint.AliveTimer.{AliveTimer, second, millisecond, extend, is_over}
use tateyama.Endpoint.Handshake.{
  Authentication, Verdict, accepts, rejects, raises, Credential, encrypted_credential,
  remember_me_credential, no_credential, Code, authentication_error, illegal_state,
  unsupported_operation,
}

-- The timeouts are in seconds; `expiration_time` is the one of the session context.
pub record Limits : Type 0 where
  pub enable_timeout : Bool
  pub refresh_timeout : ℕ
  pub max_refresh_timeout : ℕ
  pub expiration_time : Option ℕ
  pub auth : Option Authentication
  pub authentication_timer : AliveTimer
  pub user_name : Option Str

-- `worker_common::update_expiration_time`
unfoldable pub update_expiration_time : Limits → Bool → ℕ → Limits
update_expiration_time l force now =
    let new_until_time = now + l.refresh_timeout * second in
    if l.enable_timeout
    then record l {
      expiration_time =
          (if force then some new_until_time else extend new_until_time l.expiration_time);
    }
    else l

-- the two readings of the clock of `worker_common::is_expiration_time_over`
unfoldable pub is_expiration_time_over : Limits → ℕ → ℕ → Bool
unfolding Timer.is_expiration_time_over
is_expiration_time_over l now later = elim l.auth [
  | none ↦ is_over now l.expiration_time
  | some a ↦
      is_over now l.expiration_time || Timer.is_expiration_time_over l.authentication_timer later
]

-- The time that a client asks for, in milliseconds, between the two limits. It comes as an unsigned
-- number and becomes a signed one of 64 bits, so that a large one is negative.
unfoldable pub requested_time : Limits → ℕ → ℕ
requested_time l asked =
    let refresh = l.refresh_timeout * 1000 in
    let at_least = if ltb asked refresh || not (ltb asked (2 ^ 63)) then refresh else asked in
    if ltb (l.max_refresh_timeout * 1000) at_least then l.max_refresh_timeout * 1000 else at_least

-- `case kUpdateExpirationTime` of `routing_service_chain`; the request may name a time.
unfoldable pub serve_update_expiration_time : Limits → Option ℕ → ℕ → Limits
unfolding requested_time update_expiration_time
serve_update_expiration_time l (some asked) now = record l {
  expiration_time = extend (now + requested_time l asked * millisecond) l.expiration_time;
}
serve_update_expiration_time l none now = update_expiration_time l false now

-- The texts of the errors; one that is the text of an exception may be empty, and then it counts as
-- no error.
pub data UpdateError : Type 0 where
  user_or_password_is_incorrect token_is_incorrect no_credential_given different_user : UpdateError
  what token_is_incorrect_what : Str → UpdateError

pub data UpdateAnswer : Type 0 where
  update_success : UpdateAnswer
  update_error : Code → UpdateError → UpdateAnswer

-- the error with its code, and the user name, after the switch on the kind of credential
pub record Checked : Type 0 where
  pub code : Code
  pub error : Option UpdateError
  pub user_name : Option Str

abbrev pub what_of : Str → Option UpdateError
what_of [] = none
what_of (b ∷ bs) = some (what (b ∷ bs))

abbrev pub password_checked : Verdict → Checked
password_checked (accepts name) = record {
  code = authentication_error;
  error = none;
  user_name = some name;
}
password_checked rejects = record {
  code = authentication_error;
  error = some user_or_password_is_incorrect;
  user_name = none;
}
password_checked (raises code text) = record {
  code = authentication_error;
  error = what_of text;
  user_name = none;
}

abbrev pub token_checked : Verdict → Checked
token_checked (accepts name) = record {
  code = authentication_error;
  error = none;
  user_name = some name;
}
token_checked rejects = record {
  code = authentication_error;
  error = some token_is_incorrect;
  user_name = none;
}
token_checked (raises (some code) text) = record {
  code = code;
  error = some (token_is_incorrect_what text);
  user_name = none;
}
token_checked (raises none text) = record {
  code = authentication_error;
  error = none;
  user_name = none;
}

unfoldable pub check_credential : Authentication → Credential → Checked
check_credential a (encrypted_credential text) = password_checked (a.verify_encrypted text)
check_credential a (remember_me_credential text) = token_checked (a.verify_token text)
check_credential a no_credential = record {
  code = authentication_error;
  error = some no_credential_given;
  user_name = none;
}

abbrev pub is_name : Option Str → Str → Bool
is_name none name = false
is_name (some own) name = str_eq name own

-- the comparison with the user of the session
unfoldable pub compare_user : Option Str → Checked → Checked
compare_user own c = elim c.user_name [
  | none ↦ c
  | some name ↦ (if is_name own name then c else record c { error = some different_user })
]

-- `case kUpdateAuthentication` of `endpoint_service`
unfoldable pub update_authentication : Limits → Credential → ℕ → UpdateAnswer × Limits
unfolding check_credential compare_user Timer.update_expiration_time
update_authentication l credential now = elim l.auth [
  | none ↦ (update_success, l)
  | some a ↦
      (let c = compare_user l.user_name (check_credential a credential) in
        elim c.error [
          | some problem ↦ (update_error c.code problem, l)
          | none ↦ (
            update_success,
            record l {
              authentication_timer = Timer.update_expiration_time l.authentication_timer false now;
            },
          )
        ])
]

pub data ExpirationAnswer : Type 0 where
  expires_at : ℕ → ExpirationAnswer
  timer_is_off authentication_is_off : ExpirationAnswer

-- `case kGetAuthenticationExpirationTime` of `endpoint_service`
unfoldable pub get_authentication_expiration_time : Limits → ExpirationAnswer
unfolding Timer.next_expiration
get_authentication_expiration_time l = elim l.auth [
  | none ↦ authentication_is_off
  | some a ↦
      (let ne = Timer.next_expiration l.authentication_timer in
        if ltb 0 ne then expires_at ne else timer_is_off)
]
