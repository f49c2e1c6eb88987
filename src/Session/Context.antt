-- ===== src/Session/Context.antt =====
-- `session_context` of src/tateyama/session/context.cpp, with the `session_info` that it refers to.
-- No other thread changes the request between the load and the exchange, so that the loop of
-- `shutdown_request` ends in its first round.
use tateyama.Base.{ℕ, ◌≡◌, ◌<◌, ◌↔◌, Bool, true, false, ◌||◌, if◌then◌else◌, Option, arith, ap}
use tateyama.Base.Text.{Str}
use tateyama.Session.Variables.{VariableSet}

pub data ShutdownRequest : Type 0 where
  nothing graceful forceful : ShutdownRequest

abbrev pub same_request : ShutdownRequest → ShutdownRequest → Bool
same_request nothing nothing = true
same_request graceful graceful = true
same_request forceful forceful = true
same_request a b = false

-- `start_at` is in milliseconds; no user name is std::nullopt.
pub record SessionInfo : Type 0 where
  pub id : ℕ
  pub label : Str
  pub application_name : Str
  pub username : Option Str
  pub is_administrator : Bool
  pub start_at : ℕ
  pub connection_type_name : Str
  pub connection_information : Str

pub record SessionContext : Type 0 where
  pub info : SessionInfo
  pub variables : VariableSet
  pub shutdown : ShutdownRequest
  pub expiration_time : Option ℕ

abbrev pub numeric_id : SessionContext → ℕ
numeric_id c = c.info.id

abbrev pub symbolic_id : SessionContext → Str
symbolic_id c = c.info.label

-- the answer of `shutdown_request(type)` and the request after it
unfoldable pub request_after : ShutdownRequest → ShutdownRequest → Bool × ShutdownRequest
request_after old type =
    if same_request type nothing
    then (false, old)
    else if same_request old type || same_request old forceful
    then (false, old)
    else (true, type)

unfoldable pub shutdown_request : SessionContext → ShutdownRequest → Bool × SessionContext
unfolding request_after
shutdown_request c type =
    let (accepted, after) = request_after c.shutdown type in
    (accepted, record c { shutdown = after })

-- how strong a request is
abbrev pub strength : ShutdownRequest → ℕ
strength nothing = 0
strength graceful = 1
strength forceful = 2

request_after_iff :
    (old type : ShutdownRequest)
    → ((request_after old type).0 ≡ true ↔ strength old < strength type)
      × ((request_after old type).0 ≡ true → (request_after old type).1 ≡ type)
      × ((request_after old type).0 ≡ false → (request_after old type).1 ≡ old)
unfolding request_after
request_after_iff nothing nothing = ground arith
request_after_iff nothing graceful = ground arith
request_after_iff nothing forceful = ground arith
request_after_iff graceful nothing = ground arith
request_after_iff graceful graceful = ground arith
request_after_iff graceful forceful = ground arith
request_after_iff forceful nothing = ground arith
request_after_iff forceful graceful = ground arith
request_after_iff forceful forceful = ground arith

-- A shutdown request is accepted exactly when it is stronger than the request that the session has,
-- which it then replaces; a request that is refused leaves the session as it is.
pub shutdown_request_iff :
    (c : SessionContext) (type : ShutdownRequest)
    → let (accepted, c') = shutdown_request c type in
      ((accepted ≡ true) ↔ (strength c.shutdown < strength type))
      × (accepted ≡ true → c' ≡ record c { shutdown = type })
      × (accepted ≡ false → c' ≡ c)
unfolding shutdown_request
shutdown_request_iff c type =
    let (stronger, taken, kept) = request_after_iff c.shutdown type in
    (
      stronger,
      λ e. ap (λ (s : ShutdownRequest). record c { shutdown = s }) (taken e),
      λ e. ap (λ (s : ShutdownRequest). record c { shutdown = s }) (kept e),
    )
