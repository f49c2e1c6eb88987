-- ===== src/Session/Bridge/Reading.antt =====
-- What is set through the session service is what the service reads.
use mathlib.Core.Option
use tateyama.Base.{
  ℕ, ◌≡◌, refl, sym, ap, ap₂, ◌∙◌, inl, inr, Bool, true, false, ◌==◌, if◌then◌else◌, Option, none,
  some, List, [], ◌∷◌, arith, Bool-cases, Option-cases, All,
}
use tateyama.Base.Text.{Str, str_eq}
use tateyama.Session.Variables.{
  VariableType, Value, exists, type_of, store, set, get, find_declaration,
}
use tateyama.Session.Variables.Assignment.{exists-store, get-store, type_of-store}
use tateyama.Session.Context.{SessionInfo, SessionContext}
use tateyama.Session.Container.{
  Entry, Container, find_session, last_match, foreach, purge, update, with_label,
  enumerate_by_label,
}
use tateyama.Session.Container.Registration.{All-purge}
use tateyama.Session.Bridge.Ownership.{SameInfo}
use tateyama.Session.Bridge.Search.{
  purge-purge, find_session-purged, purged, chain, checked, Finds, permitted_session-chain,
  permitted_session-Finds, Outcome-cases,
}
use tateyama.Session.Bridge.{
  searched, Core, Outcome, success, find_only_one_session, the_only_one, permitted_session, changed,
  get_valiable, set_valiable, value_of_type, VariableMessage, set_or_refuse,
}

-- an entry after a change of the object
abbrev renew : ℕ → SessionContext → Entry → Entry
renew object c e = if e.object == object then record e { context = c } else e

renew-info :
    (object : ℕ) (c : SessionContext) (e : Entry)
    → SameInfo object c e
    → (renew object c e).context.info ≡ e.context.info
renew-info object c e h = elim (Bool-cases (e.object == object)) [
  | inl t ↦ rw t (sym (h t))
  | inr t ↦ rw t refl
]

renew-live : (object : ℕ) (c : SessionContext) (e : Entry) → (renew object c e).live ≡ e.live
renew-live object c e = ground arith

purge-update :
    (es : Container) (object : ℕ) (c : SessionContext)
    → purge (update es object c) ≡ update (purge es) object c
unfolding purge update
purge-update [] object c = refl
purge-update (e ∷ es) object c = ground (arith, purge-update es object c)

last_match-cons :
    (id : ℕ) (e : Entry) (es : List Entry) (rv : Option Entry) (b : Bool)
    → id == e.context.info.id ≡ b
    → last_match id (e ∷ es) rv ≡ last_match id es (if b then some e else rv)
unfolding last_match
last_match-cons id e es rv b h = rw h refl

last_match-update :
    (id : ℕ) (es : List Entry) (object : ℕ) (c : SessionContext) (rv : Option Entry)
    → All (SameInfo object c) es
    → last_match id (update es object c) (Option.map (renew object c) rv)
      ≡ Option.map (renew object c) (last_match id es rv)
unfolding last_match update
last_match-update id [] object c rv h = refl
last_match-update id (e ∷ es) object c rv (p, h) =
    let same : id == (renew object c e).context.info.id ≡ (id == e.context.info.id) =
      ap (λ (i : SessionInfo). id == i.id) (renew-info object c e p) in
    elim (Bool-cases (id == e.context.info.id)) [
      | inl t ↦
          last_match-cons id (renew object c e) (update es object c)
            (Option.map (renew object c) rv) true (same ∙ t)
          ∙ last_match-update id es object c (some e) h
          ∙ sym (ap (Option.map (renew object c)) (last_match-cons id e es rv true t))
      | inr t ↦
          last_match-cons id (renew object c e) (update es object c)
            (Option.map (renew object c) rv) false (same ∙ t)
          ∙ last_match-update id es object c rv h
          ∙ sym (ap (Option.map (renew object c)) (last_match-cons id e es rv false t))
    ]

with_label-update :
    (label : Str) (es : List Entry) (object : ℕ) (c : SessionContext)
    → All (SameInfo object c) es
    → with_label label (update es object c) ≡ with_label label es
unfolding update
with_label-update label [] object c h = refl
with_label-update label (e ∷ es) object c (p, h) =
    ap₂ (λ (i : SessionInfo) (rest : List ℕ). if str_eq label i.label then i.id ∷ rest else rest)
      (renew-info object c e p) (with_label-update label es object c h)

find_session-update :
    (es : Container) (object : ℕ) (c : SessionContext) (id : ℕ)
    → All (SameInfo object c) es
    → (find_session (update es object c) id).0 ≡ Option.map (renew object c) (find_session es id).0
unfolding find_session foreach
find_session-update es object c id h =
    ap (λ (xs : List Entry). last_match id xs none) (purge-update es object c)
    ∙ last_match-update id (purge es) object c none (All-purge (SameInfo object c) es h)

find_only_one_session-update :
    (k : Core) (object : ℕ) (c : SessionContext) (specifier : Str)
    → All (SameInfo object c) k.container
    → (find_only_one_session (searched k (update (purge k.container) object c)) specifier).0
      ≡ (find_only_one_session k specifier).0
unfolding find_only_one_session enumerate_by_label foreach
find_only_one_session-update k object c [] h = refl
find_only_one_session-update k object c (x ∷ xs) h =
    let living = All-purge (SameInfo object c) k.container h in
    let labels : with_label (x ∷ xs) (purge (update (purge k.container) object c))
        ≡ with_label (x ∷ xs) (purge k.container) =
      ap (with_label (x ∷ xs)) (
        purge-update (purge k.container) object c
        ∙ ap (λ (es : Container). update es object c) (purge-purge k.container))
      ∙ with_label-update (x ∷ xs) (purge k.container) object c living in
    elim (Bool-cases (x == 58)) [ inl t ↦ rw t refl | inr t ↦ rw t (ap the_only_one labels) ]

-- the session of the specifier, after a change of it
permitted_session-update :
    (k : Core) (specifier : Str) (caller : SessionInfo) (c : SessionContext) {e : Entry}
    → All (SameInfo e.object c) k.container
    → c.info ≡ e.context.info
    → Finds k specifier caller e
    → (permitted_session (changed (purged k) e c) specifier caller).0
      ≡ success (record e { context = c })
permitted_session-update k specifier caller c {e} h same found =
    permitted_session-chain (changed (purged k) e c) specifier caller
    ∙ ap
        (λ (o : Outcome ℕ).
          chain o (λ i. checked caller (find_session (update (purge k.container) e.object c) i).0))
        (find_only_one_session-update k e.object c specifier h ∙ found.one)
    ∙ ap (checked caller) (
        find_session-update (purge k.container) e.object c found.id
          (All-purge (SameInfo e.object c) k.container h)
        ∙ ap (Option.map (renew e.object c))
            (find_session-purged k.container found.id ∙ found.there)
        ∙ renewed)
    ∙ rw (same, found.allowed) refl
  where
    renewed : some (renew e.object c e) ≡ some (record e { context = c })
    renewed = ground arith

-- what a successful `set_valiable` has found, and done
record Sets (lexical_cast : Str → Option Bool) (k k' : Core) (specifier name value : Str)
    (caller : SessionInfo) : Type 0 where
  entry : Entry
  type : VariableType
  x : Value
  found : (permitted_session k specifier caller).0 ≡ success entry
  declared : exists entry.context.variables name ≡ true
  typed : type_of entry.context.variables name ≡ some type
  parsed : value_of_type lexical_cast type value ≡ some x
  after :
      k'
      ≡ changed
          (permitted_session k specifier caller).1
          entry
          (record (entry.context) { variables = store entry.context.variables name x })

set_or_refuse-changed :
    (k k' : Core) (e : Entry) (name : Str) (x : Value)
    → exists e.context.variables name ≡ true
    → set_or_refuse k e name x ≡ (success tt, k')
    → k' ≡ changed k e (record (e.context) { variables = store e.context.variables name x })
unfolding set
set_or_refuse-changed k k' e name x t h =
    let h' = rw t at h in sym (ap (λ (r : Outcome (Unit {0}) × Core). r.1) h')

set_valiable-Sets :
    (lexical_cast : Str → Option Bool) (k k' : Core) (specifier name value : Str)
    (caller : SessionInfo)
    → set_valiable lexical_cast k specifier name value caller ≡ (success tt, k')
    → Sets lexical_cast k k' specifier name value caller
unfolding set_valiable
set_valiable-Sets lexical_cast k k' specifier name value caller h =
    elim (Outcome-cases (permitted_session k specifier caller).0) [
      | inl (e, found) ↦
          (let h1 = rw (set_valiable, found) at h in
            elim (Bool-cases (exists e.context.variables name)) [
              | inl t ↦
                  (let h2 = rw t at h1 in
                    elim (Option-cases (type_of e.context.variables name)) [
                      | inl n ↦ absurd (let h3 = rw n at h2 in ground (arith, h3))
                      | inr (type, n) ↦
                          (let h3 = rw n at h2 in
                            elim (Option-cases (value_of_type lexical_cast type value)) [
                              | inl v ↦ absurd (let h4 = rw v at h3 in ground (arith, h4))
                              | inr (x, v) ↦
                                  (let h4 = rw v at h3 in
                                    record {
                                      entry = e;
                                      type = type;
                                      x = x;
                                      found = found;
                                      declared = t;
                                      typed = n;
                                      parsed = v;
                                      after =
                                          set_or_refuse-changed
                                            (permitted_session k specifier caller).1 k' e name x t
                                            h4;
                                    })
                            ])
                    ])
              | inr t ↦ absurd (let h2 = rw t at h1 in ground (arith, h2))
            ])
      | inr (inl (code, e)) ↦ absurd (let h1 = rw (set_valiable, e) at h in ground (arith, h1))
      | inr (inr (x, e)) ↦ absurd (let h1 = rw (set_valiable, e) at h in ground (arith, h1))
    ]

-- Where the entries of one object have the same session information: after a successful
-- `set_valiable` by a user, `get_valiable` by the same user succeeds and answers the value that the
-- text stands for in the type that the variable has in the session which the specifier names.
pub set_valiable-get_valiable :
    (lexical_cast : Str → Option Bool) (k k' : Core) (specifier name value : Str)
    (caller : SessionInfo)
    → ((e : Entry)
        → (permitted_session k specifier caller).0 ≡ success e
        → All (SameInfo e.object e.context) k.container)
    → set_valiable lexical_cast k specifier name value caller ≡ (success tt, k')
    → (e : Entry) × (type : VariableType) × (x : Value) × (m : VariableMessage)
      × ((permitted_session k specifier caller).0 ≡ success e)
      × (type_of e.context.variables name ≡ some type)
      × (value_of_type lexical_cast type value ≡ some x)
      × ((get_valiable k' specifier name caller).0 ≡ success m)
      × (m.name ≡ name)
      × (m.value ≡ x)
unfolding get_valiable
set_valiable-get_valiable lexical_cast k k' specifier name value caller h done =
    let s = set_valiable-Sets lexical_cast k k' specifier name value caller done in
    let f = permitted_session-Finds k specifier caller {e = s.entry} s.found in
    let vs = s.entry.context.variables in
    let c = record (s.entry.context) { variables = store vs name s.x } in
    let again : (permitted_session k' specifier caller).0
        ≡ success (record (s.entry) { context = c }) =
      ap (λ (q : Core). (permitted_session q specifier caller).0)
        (s.after ∙ ap (λ (q : Core). changed q s.entry c) f.core)
      ∙ permitted_session-update k specifier caller c {e = s.entry} (h s.entry s.found) refl f in
    (
      s.entry,
      s.type,
      s.x,
      record {
        name = name;
        value = get (store vs name s.x) name;
        description = elim (find_declaration k'.variable_declarations name) [
          | none ↦ none
          | some d ↦ some d.description
        ];
      },
      s.found,
      s.typed,
      s.parsed,
      rw (get_valiable, again)
          (rw (exists-store vs name name s.x, s.declared, type_of-store vs name name s.x, s.typed)
            refl),
      refl,
      get-store vs name s.x s.declared,
    )
