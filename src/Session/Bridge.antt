-- ===== src/Session/Bridge.antt =====
-- The operations of the session service, src/tateyama/session/resource/bridge.cpp. An exception that
-- no operation catches is an outcome of its own. `boost::lexical_cast<locale_bool>` is a parameter.
pub mod Permission
pub mod Changes
pub mod Ownership
pub mod Reading
pub mod Search
use tateyama.Base.{
  ℕ, Bool, true, false, ◌==◌, not, ◌&&◌, ◌||◌, if◌then◌else◌, Option, none, some, List, [], ◌∷◌,
}
use tateyama.Base.Text.{Str, str_eq}
use tateyama.Session.Variables
use tateyama.Session.Variables.{
  VariableType, boolean, signed_integer, unsigned_integer, string, Value, of_bool, of_signed,
  of_unsigned, of_string, VariableSet, exists, type_of, DeclarationSet, make_variable_set,
  find_declaration,
}
use tateyama.Session.Context.{SessionInfo, SessionContext, ShutdownRequest, shutdown_request}
use tateyama.Session.Container.{Entry, Container, foreach, find_session, enumerate_by_label, update}
use tateyama.Session.Numbers.{stol, stoul, to_string}

pub data ErrorCode : Type 0 where
  invalid_argument session_not_found session_ambiguous operation_not_permitted : ErrorCode
  session_variable_invalid_value session_variable_not_declared : ErrorCode

-- std::runtime_error for a permission, and std::out_of_range of `string_view::at`
pub data Exception : Type 0 where
  no_permission out_of_range : Exception

pub data Outcome {ℓ} (A : Type ℓ) : Type ℓ where
  success : A → Outcome A
  fails : ErrorCode → Outcome A
  throws : Exception → Outcome A

-- `sessions_core_impl`
pub record Core : Type 0 where
  pub container : Container
  pub variable_declarations : DeclarationSet

-- the fields that `set_entry` sets in a `SessionInfo` message
pub record InfoMessage : Type 0 where
  pub session_id : Str
  pub label : Str
  pub application : Str
  pub user : Option Str
  pub start_at : ℕ
  pub connection_type : Str
  pub connection_info : Str

unfoldable pub set_entry : SessionInfo → InfoMessage
unfolding to_string
set_entry info = record {
  session_id = 58 ∷ to_string info.id;
  label = info.label;
  application = info.application_name;
  user = info.username;
  start_at = info.start_at;
  connection_type = info.connection_type_name;
  connection_info = info.connection_information;
}

abbrev pub the_only_one : List ℕ → Outcome ℕ
the_only_one [] = fails session_not_found
the_only_one (id ∷ []) = success id
the_only_one (id ∷ other ∷ ids) = fails session_ambiguous

-- the core after a search of the container
abbrev pub searched : Core → Container → Core
searched k after = record k { container = after }

unfoldable pub find_only_one_session : Core → Str → Outcome ℕ × Core
unfolding stol enumerate_by_label
find_only_one_session k [] = (throws out_of_range, k)
find_only_one_session k (c ∷ cs) =
    let (ids, after) = enumerate_by_label k.container (c ∷ cs) in
    if c == 58
    then (elim (stol cs) [ none ↦ fails invalid_argument | some id ↦ success id ], k)
    else (the_only_one ids, searched k after)

abbrev pub same_user : Option Str → Option Str → Bool
same_user none none = true
same_user none (some t) = false
same_user (some s) none = false
same_user (some s) (some t) = str_eq s t

-- whether the user of `caller` may look at, or change, the session of `info`
abbrev pub is_permitted : SessionInfo → SessionInfo → Bool
is_permitted caller info = caller.is_administrator || same_user caller.username info.username

abbrev pub listed : ℕ → SessionInfo → List Entry → List InfoMessage
listed session_id caller [] = []
listed session_id caller (e ∷ es) =
    let rest = listed session_id caller es in
    if not (session_id == e.context.info.id) && is_permitted caller e.context.info
    then set_entry e.context.info ∷ rest
    else rest

unfoldable pub list : Core → ℕ → SessionInfo → List InfoMessage × Core
unfolding foreach
list k session_id caller =
    let (visited, after) = foreach k.container in
    (listed session_id caller visited, searched k after)

-- the test of the session that was found, and of its user
abbrev pub check_user : SessionInfo → Core → Option Entry × Container → Outcome Entry × Core
check_user caller k (none, after) = (fails session_not_found, searched k after)
check_user caller k (some e, after) = (
  (if is_permitted caller e.context.info then success e else throws no_permission),
  searched k after,
)

abbrev pub find_by_id : SessionInfo → Outcome ℕ × Core → Outcome Entry × Core
find_by_id caller (fails code, k) = (fails code, k)
find_by_id caller (throws x, k) = (throws x, k)
find_by_id caller (success id, k) = check_user caller k (find_session k.container id)

-- The session that the specifier names, for a user who may use it. These are the first lines of `get`
-- (99 to 118 of bridge.cpp), `set_valiable` (176 to 195), `unset_valiable` (260 to 277) and
-- `get_valiable` (319 to 336), which are the same code but for messages and for handlers of
-- std::invalid_argument, an exception that nothing in them throws. `session_shutdown` has its own.
unfoldable pub permitted_session : Core → Str → SessionInfo → Outcome Entry × Core
unfolding find_only_one_session find_session
permitted_session k specifier caller = find_by_id caller (find_only_one_session k specifier)

unfoldable pub get : Core → Str → SessionInfo → Outcome InfoMessage × Core
unfolding permitted_session
get k specifier caller =
    let (found, k') = permitted_session k specifier caller in
    elim found [
      | fails code ↦ (fails code, k')
      | throws x ↦ (throws x, k')
      | success e ↦ (success (set_entry e.context.info), k')
    ]

abbrev pub changed : Core → Entry → SessionContext → Core
changed k e c = record k { container = update k.container e.object c }

-- What a `session_shutdown` leaves behind: its answer, its parameter `context`, which is the object
-- that the pointer points to or none, and the core.
abbrev pub Shutdown : Type 0
Shutdown = Outcome (Unit {0}) × Option ℕ × Core

abbrev pub request_of : ShutdownRequest → SessionInfo → Core → Entry → Shutdown
request_of type caller k e =
    let (accepted, c) = shutdown_request e.context type in
    if is_permitted caller e.context.info
    then (if accepted
        then (success tt, some e.object, changed k e c)
        else (fails operation_not_permitted, some e.object, k))
    else (throws no_permission, some e.object, k)

abbrev pub shutdown_found :
    ShutdownRequest → SessionInfo → Core → Option Entry × Container → Shutdown
shutdown_found type caller k (none, after) = (fails session_not_found, none, searched k after)
shutdown_found type caller k (some e, after) = request_of type caller (searched k after) e

abbrev pub shutdown_one : ShutdownRequest → Option ℕ → SessionInfo → Outcome ℕ × Core → Shutdown
shutdown_one type context caller (fails code, k) = (fails code, context, k)
shutdown_one type context caller (throws x, k) = (throws x, context, k)
shutdown_one type context caller (success id, k) =
    shutdown_found type caller k (find_session k.container id)

-- `context` is what the caller's pointer was before: it is assigned as soon as the container has been
-- searched, before the user is checked.
unfoldable pub session_shutdown : Core → Str → ShutdownRequest → Option ℕ → SessionInfo → Shutdown
unfolding find_only_one_session find_session shutdown_request
session_shutdown k specifier type context caller =
    shutdown_one type context caller (find_only_one_session k specifier)

-- `vs.set`, and the answer for a name that is not there
abbrev pub set_or_refuse : Core → Entry → Str → Value → Outcome (Unit {0}) × Core
set_or_refuse k e name x =
    let (known, vs) = Variables.set e.context.variables name x in
    if known
    then (success tt, changed k e (record (e.context) { variables = vs }))
    else (fails operation_not_permitted, k)

module _ (lexical_cast : Str → Option Bool) where
  -- the value of the declared type
  unfoldable pub value_of_type : VariableType → Str → Option Value
  unfolding stol stoul
  value_of_type boolean value = elim (lexical_cast value) [
    | none ↦ none
    | some b ↦ some (of_bool b)
  ]
  value_of_type signed_integer value = elim (stol value) [
    | none ↦ none
    | some v ↦ some (of_signed v)
  ]
  value_of_type unsigned_integer value = elim (stoul value) [
    | none ↦ none
    | some v ↦ some (of_unsigned v)
  ]
  value_of_type string value = some (of_string value)

  unfoldable pub set_valiable : Core → Str → Str → Str → SessionInfo → Outcome (Unit {0}) × Core
  unfolding permitted_session exists type_of value_of_type
  set_valiable k specifier name value caller =
      let (found, k') = permitted_session k specifier caller in
      elim found [
        | fails code ↦ (fails code, k')
        | throws x ↦ (throws x, k')
        | success e ↦
            (if exists e.context.variables name
              then elim (type_of e.context.variables name) [
                | none ↦ (fails session_variable_not_declared, k')
                | some type ↦ elim (value_of_type type value) [
                  | none ↦ (fails session_variable_invalid_value, k')
                  | some x ↦ set_or_refuse k' e name x
                ]
              ]
              else (fails session_variable_not_declared, k'))
      ]

unfoldable pub unset_valiable : Core → Str → Str → SessionInfo → Outcome (Unit {0}) × Core
unfolding permitted_session exists make_variable_set
unset_valiable k specifier name caller =
    let (found, k') = permitted_session k specifier caller in
    elim found [
      | fails code ↦ (fails code, k')
      | throws x ↦ (throws x, k')
      | success e ↦
          (if exists e.context.variables name
            then set_or_refuse k' e name
                (Variables.get (make_variable_set k.variable_declarations) name)
            else (fails session_variable_not_declared, k'))
    ]

-- the name, value and description of a `SessionGetVariable` message
pub record VariableMessage : Type 0 where
  pub name : Str
  pub value : Value
  pub description : Option Str

unfoldable pub get_valiable : Core → Str → Str → SessionInfo → Outcome VariableMessage × Core
unfolding permitted_session exists type_of
get_valiable k specifier name caller =
    let (found, k') = permitted_session k specifier caller in
    elim found [
      | fails code ↦ (fails code, k')
      | throws x ↦ (throws x, k')
      | success e ↦
          (if exists e.context.variables name
            then elim (type_of e.context.variables name) [
              | none ↦ (fails session_variable_not_declared, k')
              | some type ↦ (
                success (record {
                  name = name;
                  value = Variables.get e.context.variables name;
                  description = elim (find_declaration k.variable_declarations name) [
                    | none ↦ none
                    | some d ↦ some d.description
                  ];
                }),
                k',
              )
            ]
            else (fails session_variable_not_declared, k'))
    ]
