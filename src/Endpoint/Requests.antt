-- ===== src/Endpoint/Requests.antt =====
-- The table of the requests that a session works on, and its shutdown, in `worker_common` of
-- src/tateyama/endpoint/common/worker_common.h. The use counts of the shared pointers are part of an
-- entry; what the client is told is a list.
pub mod Dissipated
use tateyama.Base.{
  ℕ, Bool, true, false, not, ◌&&◌, ◌||◌, ◌==◌, ltb, if◌then◌else◌, List, [], ◌∷◌, ◌++◌, map,
}
use tateyama.Session.Context.{
  ShutdownRequest, nothing, graceful, forceful, same_request, request_after,
}
use tateyama.Endpoint.Handshake.{Code, other_code}

-- `common::response`, as far as the worker looks at it
pub record Response : Type 0 where
  pub completed : Bool
  pub has_data_channel : Bool
  pub cancelled : Bool

abbrev pub is_response_completed : Response → Bool
is_response_completed r = r.completed && not r.has_data_channel

abbrev pub cancel : Response → Response
cancel r = record r { cancelled = true }

abbrev pub set_completed : Response → Response
set_completed r = record r { completed = true }

-- an entry of `reqreses_`, with the use counts of its two pointers
pub record Pending : Type 0 where
  pub slot : ℕ
  pub request_count : ℕ
  pub response_count : ℕ
  pub response : Response

-- what the client is told outside the answers of services
pub data Notice : Type 0 where
  request_dissipated operation_denied shutdown_done : ℕ → Notice

-- The entries and the slots of `shutdown_response_` are in the order of the slots, as in a std::map.
pub record Table : Type 0 where
  pub reqreses : List Pending
  pub shutdown_responses : List ℕ
  pub shutdown : ShutdownRequest
  pub cancel_requested : Bool
  pub complete_shutdown_from_client : Bool
  pub notices : List Notice

abbrev pub notify : Table → List Notice → Table
notify t ns = record t { notices = t.notices ++ ns }

-- `erase` and `emplace` of one slot
unfoldable pub emplace : Pending → List Pending → List Pending
emplace p [] = p ∷ []
emplace p (q ∷ qs) =
    if ltb p.slot q.slot then p ∷ q ∷ qs else if p.slot == q.slot then p ∷ qs else q ∷ emplace p qs

-- whether the blobs of the request are in order decides what it answers
unfoldable pub register_reqres : Table → Pending → Bool → Bool × Table
unfolding emplace
register_reqres t p blob_ok =
    let registered = record t { reqreses = emplace p t.reqreses } in
    if blob_ok
    then (true, registered)
    else (false, notify registered (operation_denied p.slot ∷ []))

unfoldable pub erase : ℕ → List Pending → List Pending
erase slot [] = []
erase slot (q ∷ qs) = if q.slot == slot then qs else q ∷ erase slot qs

unfoldable pub remove_reqres : Table → ℕ → Table
unfolding erase
remove_reqres t slot = record t { reqreses = erase slot t.reqreses }

-- whether the table alone holds the request and the response
abbrev pub is_dissipated : Pending → Bool
is_dissipated p = (p.request_count == 1) && (p.response_count == 1)

-- the entries that `care_reqreses` keeps
unfoldable pub cared : List Pending → List Pending
cared [] = []
cared (p ∷ ps) = let rest = cared ps in if is_dissipated p then rest else p ∷ rest

-- and what it tells the client of the others
unfoldable pub dissipated_notices : List Pending → List Notice
dissipated_notices [] = []
dissipated_notices (p ∷ ps) =
    let rest = dissipated_notices ps in
    if is_dissipated p && not (is_response_completed p.response)
    then request_dissipated p.slot ∷ rest
    else rest

unfoldable pub care_reqreses : Table → Table
unfolding cared dissipated_notices
care_reqreses t = notify (record t { reqreses = cared t.reqreses }) (dissipated_notices t.reqreses)

-- `foreach_reqreses`: the callback goes to the responses that are held elsewhere too.
unfoldable pub foreach_reqreses : (Response → Response) → List Pending → List Pending
foreach_reqreses func [] = []
foreach_reqreses func (p ∷ ps) =
    let rest = foreach_reqreses func ps in
    if ltb 1 p.response_count
    then record p { response = func p.response } ∷ rest
    else if p.request_count == 1
    then rest
    else p ∷ rest

abbrev pub cancel_all : Table → Table
cancel_all t = record t { reqreses = foreach_reqreses cancel t.reqreses; cancel_requested = true }

-- whether a callback of `foreach_reqreses` meets a response that is not complete
unfoldable pub any_incomplete : List Pending → Bool
any_incomplete [] = false
any_incomplete (p ∷ ps) =
    (ltb 1 p.response_count && not (is_response_completed p.response)) || any_incomplete ps

abbrev pub same_response : Response → Response
same_response r = r

unfoldable pub has_incomplete_response : Table → Bool × Table
unfolding any_incomplete foreach_reqreses
has_incomplete_response t =
    (any_incomplete t.reqreses, record t { reqreses = foreach_reqreses same_response t.reqreses })

unfoldable pub request_shutdown : Table → ShutdownRequest → Bool × Table
unfolding foreach_reqreses request_after
request_shutdown t type =
    let u = if same_request type forceful && not t.cancel_requested then cancel_all t else t in
    let (accepted, after) = request_after u.shutdown type in
    (accepted, record u { shutdown = after })

unfoldable pub check_shutdown_request : Table → Bool × Table
unfolding foreach_reqreses
check_shutdown_request t = (
  same_request t.shutdown graceful || same_request t.shutdown forceful,
  (if same_request t.shutdown forceful && not t.cancel_requested then cancel_all t else t),
)

abbrev pub member : ℕ → List ℕ → Bool
member slot [] = false
member slot (s ∷ ss) = (s == slot) || member slot ss

unfoldable pub all_shutdown : List ℕ → List Pending → Bool
all_shutdown slots [] = true
all_shutdown slots (p ∷ ps) = member p.slot slots && all_shutdown slots ps

abbrev pub is_empty {ℓ} : {A : Type ℓ} → List A → Bool
is_empty [] = true
is_empty (x ∷ xs) = false

-- with whether there is an incomplete result set
unfoldable pub is_completed : Table → Bool → Bool
unfolding all_shutdown
is_completed t incomplete_resultset =
    if incomplete_resultset
    then false
    else if is_empty t.shutdown_responses
    then is_empty t.reqreses
    else all_shutdown t.shutdown_responses t.reqreses

unfoldable pub is_all_request_completed : Table → Bool → Bool × Table
unfolding has_incomplete_response
is_all_request_completed t incomplete_resultset =
    let (incomplete, u) = has_incomplete_response t in
    (not incomplete && not incomplete_resultset, u)

unfoldable pub shutdown_complete : Table → Table
shutdown_complete t =
    let u =
      notify (record t { shutdown_responses = [] }) (map shutdown_done t.shutdown_responses) in
    if is_empty t.shutdown_responses then u else record u { complete_shutdown_from_client = true }

abbrev pub add_slot : ℕ → List ℕ → List ℕ
add_slot slot [] = slot ∷ []
add_slot slot (s ∷ ss) =
    if ltb slot s then slot ∷ s ∷ ss else if slot == s then s ∷ ss else s ∷ add_slot slot ss

pub data ShutdownType : Type 0 where
  shutdown_type_not_set graceful_type forceful_type other_type : ShutdownType

abbrev pub accept_shutdown : Table → ℕ → ShutdownRequest → Bool × Table
accept_shutdown t index type =
    let (accepted, u) = request_shutdown t type in
    (true, record u { shutdown_responses = add_slot index u.shutdown_responses })

-- `case kShutdown` of `routing_service_chain`. The worker also closes its result sets by force, which
-- is a virtual function of it, and not part of the table.
unfoldable pub serve_shutdown : Table → ℕ → ShutdownType → Bool × Table
unfolding request_shutdown
serve_shutdown t index shutdown_type_not_set = accept_shutdown t index forceful
serve_shutdown t index graceful_type = accept_shutdown t index graceful
serve_shutdown t index forceful_type = accept_shutdown t index forceful
serve_shutdown t index other_type = (false, t)

unfoldable pub cancel_slot : ℕ → List Pending → List Pending
cancel_slot slot [] = []
cancel_slot slot (p ∷ ps) =
    if p.slot == slot
    then record p { response = cancel p.response } ∷ ps
    else p ∷ cancel_slot slot ps

-- `case kCancel` of `endpoint_service`, of a request in that slot
unfoldable pub serve_cancel : Table → ℕ → Response → Response × Table
unfolding cancel_slot
serve_cancel t slot res = (set_completed res, record t { reqreses = cancel_slot slot t.reqreses })
