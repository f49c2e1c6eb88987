-- ===== src/Session/Bridge/Permission.antt =====
-- What a user who is no administrator sees and changes through the session service.
use mathlib.Core.List.{Mem}
use mathlib.Core.Path.{subst}
use tateyama.Session.Bridge.Changes.{
  Settled-Leaves, session_shutdown-Leaves, set_valiable-Leaves, unset_valiable-Leaves, core_of,
}
use tateyama.Base.{
  ℕ, ◌≡◌, refl, sym, inl, inr, Bool, true, false, Option, List, [], ◌∷◌, arith, Bool-cases,
  Option-cases, All,
}
use tateyama.Base.Text.{Str}
use tateyama.Session.Variables
use tateyama.Session.Variables.{Value, VariableSet, exists, type_of, make_variable_set, set}
use tateyama.Session.Context.{SessionInfo, ShutdownRequest}
use tateyama.Session.Container.{Entry, Container, purge, foreach}
use tateyama.Session.Bridge.Ownership.{Agree, Untouched, Leaves, Leaves-Untouched, is_permitted-own}
use tateyama.Session.Bridge.Search.{
  permitted_session-Finds, permitted_session-Settled, Outcome-cases,
}
use tateyama.Session.Bridge.{
  Core, success, permitted_session, is_permitted, get, get_valiable, set_valiable, unset_valiable,
  session_shutdown, list, listed, InfoMessage, set_entry, VariableMessage,
}

get-core :
    (k : Core) (specifier : Str) (caller : SessionInfo)
    → (get k specifier caller).1 ≡ (permitted_session k specifier caller).1
unfolding get
get-core k specifier caller = ground arith

get_valiable-core :
    (k : Core) (specifier name : Str) (caller : SessionInfo)
    → (get_valiable k specifier name caller).1 ≡ (permitted_session k specifier caller).1
unfolding get_valiable
get_valiable-core k specifier name caller = ground arith

get-own :
    (k : Core) (specifier : Str) (caller : SessionInfo) {m : InfoMessage}
    → (get k specifier caller).0 ≡ success m
    → (e : Entry) × ((permitted_session k specifier caller).0 ≡ success e)
      × (m ≡ set_entry e.context.info)
unfolding get
get-own k specifier caller h = elim (Outcome-cases (permitted_session k specifier caller).0) [
  | inl (e, found) ↦ (let h1 = rw (get, found) at h in (e, found, ground (arith, h1)))
  | inr (inl (code, e)) ↦ absurd (let h1 = rw (get, e) at h in ground (arith, h1))
  | inr (inr (x, e)) ↦ absurd (let h1 = rw (get, e) at h in ground (arith, h1))
]

get_valiable-own :
    (k : Core) (specifier name : Str) (caller : SessionInfo) {m : VariableMessage}
    → (get_valiable k specifier name caller).0 ≡ success m
    → (e : Entry) × ((permitted_session k specifier caller).0 ≡ success e)
      × (m.value ≡ Variables.get e.context.variables name)
unfolding get_valiable
get_valiable-own k specifier name caller h =
    elim (Outcome-cases (permitted_session k specifier caller).0) [
      | inl (e, found) ↦
          (let h1 = rw (get_valiable, found) at h in
            elim (Bool-cases (exists e.context.variables name)) [
              | inl t ↦
                  (let h2 = rw t at h1 in
                    elim (Option-cases (type_of e.context.variables name)) [
                      | inl n ↦ absurd (let h3 = rw n at h2 in ground (arith, h3))
                      | inr (type, n) ↦ (let h3 = rw n at h2 in (e, found, ground (arith, h3)))
                    ])
              | inr t ↦ absurd (let h2 = rw t at h1 in ground (arith, h2))
            ])
      | inr (inl (code, e)) ↦ absurd (let h1 = rw (get_valiable, e) at h in ground (arith, h1))
      | inr (inr (x, e)) ↦ absurd (let h1 = rw (get_valiable, e) at h in ground (arith, h1))
    ]

listed-own :
    (session_id : ℕ) (caller : SessionInfo) (es : List Entry)
    → caller.is_administrator ≡ false
    → All (λ m. m.user ≡ caller.username) (listed session_id caller es)
unfolding set_entry
listed-own session_id caller [] a = tt
listed-own session_id caller (e ∷ es) a = elim (Bool-cases (is_permitted caller e.context.info)) [
  | inl p ↦
      (let own : (set_entry e.context.info).user ≡ caller.username =
          is_permitted-own caller e.context.info a p in
        ground (arith, listed-own session_id caller es a))
  | inr p ↦ ground (arith, listed-own session_id caller es a)
]

-- A user who is no administrator, in a container whose entries of one object agree on the session's
-- information: what `list` tells is about sessions of this user's name; a `get` that succeeds tells of
-- a living session of this name that the container has, and `get_valiable` of the value of a variable
-- of one; and each of the six operations, however it ends and whichever session the specifier names,
-- leaves the living sessions of other names in the container as they were, and adds none.
pub no_access :
    (lexical_cast : Str → Option Bool) (k : Core) (specifier name value : Str)
    (type : ShutdownRequest) (context : Option ℕ) (id : ℕ) (caller : SessionInfo)
    → caller.is_administrator ≡ false
    → Agree k.container k.container
    → All (λ m. m.user ≡ caller.username) (list k id caller).0
      × ((m : InfoMessage)
          → (get k specifier caller).0 ≡ success m
          → (e : Entry) × Mem e k.container
            × (e.live ≡ true)
            × (e.context.info.username ≡ caller.username)
            × (m ≡ set_entry e.context.info))
      × ((m : VariableMessage)
          → (get_valiable k specifier name caller).0 ≡ success m
          → (e : Entry) × Mem e k.container
            × (e.live ≡ true)
            × (e.context.info.username ≡ caller.username)
            × (m.value ≡ Variables.get e.context.variables name))
      × Untouched caller k.container (list k id caller).1.container
      × Untouched caller k.container (get k specifier caller).1.container
      × Untouched caller k.container (get_valiable k specifier name caller).1.container
      × Untouched caller k.container
          (core_of (session_shutdown k specifier type context caller)).container
      × Untouched caller k.container
          (set_valiable lexical_cast k specifier name value caller).1.container
      × Untouched caller k.container (unset_valiable k specifier name caller).1.container
unfolding list foreach
no_access lexical_cast k specifier name value type context id caller a agree =
    let kept : Leaves caller k.container (permitted_session k specifier caller).1.container =
      Settled-Leaves caller k (permitted_session k specifier caller).1
        (permitted_session-Settled k specifier caller) in
    let untouched : (es : Container)
        → Leaves caller k.container es
        → Untouched caller k.container es =
      λ es h. Leaves-Untouched caller k.container es a agree h in
    (
      listed-own id caller (purge k.container) a,
      λ m h.
          let (e, found, q) = get-own k specifier caller {m = m} h in
          let f = permitted_session-Finds k specifier caller {e = e} found in
          (e, f.member, f.living, is_permitted-own caller e.context.info a f.allowed, q),
      λ m h.
          let (e, found, q) = get_valiable-own k specifier name caller {m = m} h in
          let f = permitted_session-Finds k specifier caller {e = e} found in
          (e, f.member, f.living, is_permitted-own caller e.context.info a f.allowed, q),
      untouched (purge k.container) (inl (inr refl)),
      untouched (get k specifier caller).1.container (
          subst (λ (c : Core). Leaves caller k.container c.container)
            (sym (get-core k specifier caller)) kept),
      untouched (get_valiable k specifier name caller).1.container (
          subst (λ (c : Core). Leaves caller k.container c.container)
            (sym (get_valiable-core k specifier name caller)) kept),
      untouched (core_of (session_shutdown k specifier type context caller)).container
          (session_shutdown-Leaves k specifier type context caller),
      untouched (set_valiable lexical_cast k specifier name value caller).1.container
          (set_valiable-Leaves lexical_cast k specifier name value caller),
      untouched (unset_valiable k specifier name caller).1.container
          (unset_valiable-Leaves k specifier name caller),
    )
