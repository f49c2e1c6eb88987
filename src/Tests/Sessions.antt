-- ===== src/Tests/Sessions.antt =====
-- Two sessions of one user and a third one of another.
use mathlib.Core.List.{Mem}
use tateyama.Base.{
  ℕ, ◌+◌, ◌<◌, ◌≡◌, ◌≢◌, ◌↔◌, refl, Bool, true, false, Option, none, some, [], ◌∷◌, arith, length,
  All,
}
use tateyama.Base.Text.{Str, str_eq}
use tateyama.Session.Variables
use tateyama.Session.Variables.{
  Variable, VariableSet, Value, signed_integer, string, of_signed, of_string, unset, exists,
  type_of,
}
use mathlib.Core.Option
use tateyama.Session.Variables.{find, make_variable_set, find_declaration, DeclarationSet}
use tateyama.Session.Variables.Assignment.{set_lem}
use tateyama.Session.Variables.Initial.{make_variable_set-find}
use tateyama.Session.Context.{
  SessionContext, graceful, forceful, strength, shutdown_request, shutdown_request_iff, numeric_id,
}
use tateyama.Session.Container.{
  Entry, Container, purge, foreach, last_match, register_session, find_session, enumerate_by_label,
}
use tateyama.Session.Container.Registration.{register_session-accepts, find_session_lem}
use tateyama.Session.Numbers.{stol, stoul, to_string}
use tateyama.Session.Bridge
use tateyama.Session.Bridge.{
  Core, Outcome, success, fails, throws, no_permission, find_only_one_session, session_ambiguous,
  get_valiable, set_valiable, unset_valiable, session_shutdown, list, InfoMessage, set_entry,
}
use mathlib.Core.Path.{subst}
use tateyama.Base.{ap}
use tateyama.Session.Variables.{VariableType, store}
use tateyama.Session.Container.{update}
use tateyama.Session.Bridge.{permitted_session, value_of_type, VariableMessage}
use tateyama.Session.Bridge.Ownership.{SameInfo, Agree, Untouched}
use tateyama.Session.Bridge.Reading.{set_valiable-get_valiable}
use tateyama.Session.Bridge.Changes.{core_of}
use tateyama.Session.Bridge.Permission.{no_access}

abbrev variables : VariableSet
variables =
    record { name = 97 ∷ []; type = signed_integer; value = of_signed 5 }
    ∷ record { name = 98 ∷ []; type = string; value = unset }
    ∷ []

abbrev session : ℕ → Str → SessionContext
session id user = record {
  info = record {
    id = id;
    label = 109 ∷ [];
    application_name = [];
    username = some user;
    is_administrator = false;
    start_at = 0;
    connection_type_name = [];
    connection_information = [];
  };
  variables = variables;
  shutdown = graceful;
  expiration_time = none;
}

abbrev sessions : Container
sessions =
    record { address = 100; object = 1; live = true; context = session 11 (117 ∷ []) }
    ∷ record { address = 200; object = 2; live = false; context = session 12 (117 ∷ []) }
    ∷ record { address = 300; object = 3; live = true; context = session 13 (118 ∷ []) }
    ∷ []

abbrev core : Core
core = record { container = sessions; variable_declarations = [] }

abbrev not_parsed : Str → Option Bool
not_parsed s = none

set_lem_example :
    let (accepted, vs') = Variables.set variables (97 ∷ []) (of_signed 7) in
    (accepted ≡ exists variables (97 ∷ []))
    × (accepted ≡ true → Variables.get vs' (97 ∷ []) ≡ of_signed 7)
    × (accepted ≡ false → vs' ≡ variables)
    × ((m : Str) → type_of vs' m ≡ type_of variables m)
    × ((m : Str) → str_eq (97 ∷ []) m ≡ false → Variables.get vs' m ≡ Variables.get variables m)
set_lem_example = set_lem variables (97 ∷ []) (of_signed 7)

shutdown_request_iff_example :
    let c = session 11 (117 ∷ []) in
    let (accepted, c') = shutdown_request c forceful in
    ((accepted ≡ true) ↔ (strength c.shutdown < strength forceful))
    × (accepted ≡ true → c' ≡ record c { shutdown = forceful })
    × (accepted ≡ false → c' ≡ c)
shutdown_request_iff_example = shutdown_request_iff (session 11 (117 ∷ [])) forceful

-- the session at 100 again
abbrev again : Entry
again = record { address = 400; object = 1; live = true; context = session 11 (117 ∷ []) }

register_session-accepts_example :
    let (accepted, after) = register_session sessions 500 again in
    (accepted ≡ true) × (length after ≡ length (purge sessions) + 1)
register_session-accepts_example =
    register_session-accepts sessions 500 again (omega arith, (omega arith, (omega arith, tt)))
      (omega arith, (omega arith, (omega arith, tt)))

find_session_lem_example :
    let (found, after) = find_session sessions 12 in
    ((e : Entry) → found ≡ some e → Mem e sessions × (e.live ≡ true) × (numeric_id e.context ≡ 12))
    × (found ≡ none → All (λ e. e.live ≡ true → numeric_id e.context ≢ 12) sessions)
    × ((e : Entry) → Mem e after ↔ (Mem e sessions × (e.live ≡ true)))
find_session_lem_example = find_session_lem sessions 12

sessions-Agree : Agree sessions sessions
sessions-Agree = (
  ((λ t. refl), ((λ t. absurd (ground (arith, t))), ((λ t. absurd (ground (arith, t))), tt))),
  (
    ((λ t. absurd (ground (arith, t))), ((λ t. refl), ((λ t. absurd (ground (arith, t))), tt))),
    (
      ((λ t. absurd (ground (arith, t))), ((λ t. absurd (ground (arith, t))), ((λ t. refl), tt))),
      tt,
    ),
  ),
)

-- the user of session 11 names the session :13, which belongs to another user
no_access_example :
    let caller = (session 11 (117 ∷ [])).info in
    let specifier : Str = 58 ∷ 49 ∷ 51 ∷ [] in
    All (λ m. m.user ≡ some (117 ∷ [])) (list core 11 caller).0
    × ((m : InfoMessage)
        → (Bridge.get core specifier caller).0 ≡ success m
        → (e : Entry) × Mem e sessions
          × (e.live ≡ true)
          × (e.context.info.username ≡ some (117 ∷ []))
          × (m ≡ set_entry e.context.info))
    × ((m : VariableMessage)
        → (get_valiable core specifier (97 ∷ []) caller).0 ≡ success m
        → (e : Entry) × Mem e sessions
          × (e.live ≡ true)
          × (e.context.info.username ≡ some (117 ∷ []))
          × (m.value ≡ Variables.get e.context.variables (97 ∷ [])))
    × Untouched caller sessions (list core 11 caller).1.container
    × Untouched caller sessions (Bridge.get core specifier caller).1.container
    × Untouched caller sessions (get_valiable core specifier (97 ∷ []) caller).1.container
    × Untouched caller sessions
        (core_of (session_shutdown core specifier forceful none caller)).container
    × Untouched caller sessions
        (set_valiable not_parsed core specifier (97 ∷ []) (55 ∷ []) caller).1.container
    × Untouched caller sessions (unset_valiable core specifier (97 ∷ []) caller).1.container
no_access_example =
    no_access not_parsed core (58 ∷ 49 ∷ 51 ∷ []) (97 ∷ []) (55 ∷ []) forceful none 11
      (session 11 (117 ∷ [])).info refl sessions-Agree

-- the set after a search of sessions: the expired one is gone
abbrev living_sessions : Container
living_sessions =
    record { address = 100; object = 1; live = true; context = session 11 (117 ∷ []) }
    ∷ record { address = 300; object = 3; live = true; context = session 13 (118 ∷ []) }
    ∷ []

-- The session of the other user is refused, and the caller's pointer is at it already.
refused : session_shutdown core (58 ∷ 49 ∷ 51 ∷ []) forceful none (session 11 (117 ∷ [])).info ≡ (
  throws no_permission,
  some 3,
  record { container = living_sessions; variable_declarations = [] },
)
unfolding session_shutdown find_only_one_session stol find_session foreach purge last_match str_eq
    shutdown_request
refused = refl

-- the two living sessions have the same label
label_is_ambiguous : (find_only_one_session core (109 ∷ [])).0 ≡ fails session_ambiguous
unfolding find_only_one_session enumerate_by_label foreach purge str_eq
label_is_ambiguous = refl

abbrev declarations : DeclarationSet
declarations =
    record {
      variable = record { name = 97 ∷ []; type = signed_integer; value = of_signed 5 };
      description = [];
    }
    ∷ []

make_variable_set-find_example :
    find (97 ∷ []) (make_variable_set declarations)
    ≡ Option.map (λ d. d.variable) (find_declaration declarations (97 ∷ []))
make_variable_set-find_example = make_variable_set-find declarations (97 ∷ [])

-- "-1" and " 42x"
numbers_read :
    (stoul (45 ∷ 49 ∷ []) ≡ some 18446744073709551615)
    × (stol (32 ∷ 52 ∷ 50 ∷ 120 ∷ []) ≡ some 42)
    × (to_string 907 ≡ 57 ∷ 48 ∷ 55 ∷ [])
unfolding stoul stol to_string
numbers_read = (refl, refl, refl)

abbrev first_session : Entry
first_session = record { address = 100; object = 1; live = true; context = session 11 (117 ∷ []) }

-- the user of session 11 sets the variable "a" of the session :11 to 7
abbrev core_after : Core
core_after = record core {
  container =
      record first_session {
        context = record (session 11 (117 ∷ [])) {
          variables =
              record { name = 97 ∷ []; type = signed_integer; value = of_signed 7 }
              ∷ record { name = 98 ∷ []; type = string; value = unset }
              ∷ [];
        };
      }
      ∷ record { address = 300; object = 3; live = true; context = session 13 (118 ∷ []) }
      ∷ [];
}

only_first :
    (e : Entry)
    → (permitted_session core (58 ∷ 49 ∷ 49 ∷ []) (session 11 (117 ∷ [])).info).0 ≡ success e
    → All (SameInfo e.object e.context) sessions
unfolding permitted_session find_only_one_session stol find_session foreach purge last_match str_eq
only_first e p =
    let same : first_session ≡ e =
      ap (λ (o : Outcome Entry). elim o [ success d ↦ d | fails code ↦ e | throws x ↦ e ]) p in
    subst (λ (d : Entry). All (SameInfo d.object d.context) sessions) same sessions-Agree.0

set_valiable-get_valiable_example :
    let caller = (session 11 (117 ∷ [])).info in
    let specifier : Str = 58 ∷ 49 ∷ 49 ∷ [] in
    (e : Entry) × (type : VariableType) × (x : Value) × (m : VariableMessage) × ((permitted_session
        core specifier caller).0
      ≡ success e)
    × (type_of e.context.variables (97 ∷ []) ≡ some type)
    × (value_of_type not_parsed type (55 ∷ []) ≡ some x)
    × ((get_valiable core_after specifier (97 ∷ []) caller).0 ≡ success m)
    × (m.name ≡ 97 ∷ [])
    × (m.value ≡ x)
unfolding set_valiable permitted_session find_only_one_session stol find_session foreach purge
    last_match str_eq exists type_of value_of_type find Variables.set store update
set_valiable-get_valiable_example =
    set_valiable-get_valiable not_parsed core core_after (58 ∷ 49 ∷ 49 ∷ []) (97 ∷ []) (55 ∷ [])
      (session 11 (117 ∷ [])).info only_first refl
