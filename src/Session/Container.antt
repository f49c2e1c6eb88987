-- ===== src/Session/Container.antt =====
-- `session_container_impl` (src/tateyama/session/resource/container_impl.cpp) and its base class
-- (src/tateyama/session/container.cpp). The set of weak pointers is the list of its elements, in the
-- set's order; an element has its own address, the identity of the object that it points to, and
-- whether that object still lives.
pub mod Registration
use tateyama.Base.{
  ℕ, Bool, true, false, ◌==◌, ◌||◌, ltb, if◌then◌else◌, Option, none, some, List, [], ◌∷◌, ◌++◌,
  map,
}
use tateyama.Base.Text.{Str, str_eq}
use tateyama.Session.Context.{SessionContext, numeric_id, symbolic_id}

pub record Entry : Type 0 where
  pub address : ℕ
  pub object : ℕ
  pub live : Bool
  pub context : SessionContext

abbrev pub Container : Type 0
Container = List Entry

-- the loop that erases the expired pointers, in `register_session` and in `foreach`
unfoldable pub purge : Container → Container
purge [] = []
purge (e ∷ es) = let rest = purge es in if e.live then e ∷ rest else rest

-- `address_compare` orders the weak pointers by where they are themselves.
abbrev pub address_compare : ℕ → ℕ → Bool
address_compare lhs rhs = ltb lhs rhs

-- `find` in the set: an element that is neither before nor after
unfoldable pub contains : Container → ℕ → Bool
contains [] address = false
contains (e ∷ es) address =
    if address_compare e.address address || address_compare address e.address
    then contains es address
    else true

unfoldable pub emplace : Container → Entry → Container
emplace [] s = s ∷ []
emplace (e ∷ es) s =
    let rest = emplace es s in
    if address_compare s.address e.address
    then s ∷ e ∷ es
    else if address_compare e.address s.address
    then e ∷ rest
    else e ∷ es

-- `register_session`: the answer and the set after it. The argument of `find` is a weak pointer that
-- is made for the call, at `temporary`; `s` is the element that `emplace` makes.
unfoldable pub register_session : Container → ℕ → Entry → Bool × Container
unfolding purge contains emplace
register_session es temporary s =
    let purged = purge es in
    if contains purged temporary then (false, purged) else (true, emplace purged s)

-- what `foreach` hands to its function, in order, and the set after it: the loop erases the expired
-- pointers that it comes to. The function does not use the set.
unfoldable pub foreach : Container → List Entry × Container
unfolding purge
foreach es = let left = purge es in (left, left)

-- the assignment `rv = entry` of each match: the last one stays
unfoldable pub last_match : ℕ → List Entry → Option Entry → Option Entry
last_match id [] rv = rv
last_match id (e ∷ es) rv = last_match id es (if id == numeric_id e.context then some e else rv)

-- The searches answer, and leave the set that `foreach` leaves.
unfoldable pub find_session : Container → ℕ → Option Entry × Container
unfolding last_match foreach
find_session es id = let (visited, after) = foreach es in (last_match id visited none, after)

unfoldable pub enumerate_numeric_ids : Container → List ℕ × Container
unfolding foreach
enumerate_numeric_ids es =
    let (visited, after) = foreach es in (map (λ e. numeric_id e.context) visited, after)

abbrev pub with_label : Str → List Entry → List ℕ
with_label label [] = []
with_label label (e ∷ es) =
    let rest = with_label label es in
    if str_eq label (symbolic_id e.context) then numeric_id e.context ∷ rest else rest

-- `enumerate_numeric_ids(symbolic_id)`
unfoldable pub enumerate_by_label : Container → Str → List ℕ × Container
unfolding foreach
enumerate_by_label es label = let (visited, after) = foreach es in (with_label label visited, after)

-- the container after a change of an object
unfoldable pub update : Container → ℕ → SessionContext → Container
update [] object c = []
update (e ∷ es) object c =
    (if e.object == object then record e { context = c } else e) ∷ update es object c
