-- ===== src/Session/Bridge/Changes.antt =====
-- What each operation of the session service may leave in the container.
use mathlib.Core.List.{Mem}
use mathlib.Core.Path.{subst}
use tateyama.Base.{
  ℕ, ◌≡◌, refl, sym, ap, ◌∙◌, inl, inr, Bool, true, Option, none, some, Bool-cases, Option-cases,
}
use tateyama.Base.Text.{Str}
use tateyama.Session.Variables
use tateyama.Session.Variables.{Value, VariableSet, exists, type_of, make_variable_set, set}
use tateyama.Session.Context.{SessionInfo, ShutdownRequest, shutdown_request}
use tateyama.Session.Container.{Entry, Container, update, find_session, foreach}
use tateyama.Session.Container.Registration.{find_session_lem}
use tateyama.Session.Bridge.Ownership.{Leaves}
use tateyama.Session.Bridge.Search.{
  purged, Settled, purged-Settled, permitted_session-Finds, permitted_session-Settled,
  find_only_one_session-Settled, find_session-Settled, Outcome-cases,
}
use tateyama.Session.Bridge.{
  Core, Outcome, success, fails, throws, find_only_one_session, permitted_session, is_permitted,
  set_valiable, unset_valiable, session_shutdown, value_of_type, set_or_refuse, Shutdown,
  request_of, shutdown_found, shutdown_one, searched,
}

pub Settled-Leaves :
    (caller : SessionInfo) (k q : Core) → Settled k q → Leaves caller k.container q.container
Settled-Leaves caller k q (inl h) = inl (inr (ap (λ (c : Core). c.container) h))
Settled-Leaves caller k q (inr h) = inl (inl (ap (λ (c : Core). c.container) h))

set_or_refuse-Leaves :
    (caller : SessionInfo) (k q : Core) (e : Entry) (name : Str) (x : Value)
    → q ≡ purged k
    → Mem e k.container
    → is_permitted caller e.context.info ≡ true
    → Leaves caller k.container (set_or_refuse q e name x).1.container
set_or_refuse-Leaves caller k q e name x h m p =
    elim (Bool-cases (Variables.set e.context.variables name x).0) [
      | inl t ↦ inr (
        e,
        record (e.context) { variables = (Variables.set e.context.variables name x).1 },
        m,
        p,
        refl,
        rw t (
            ap
              (λ (c : Core).
                update c.container e.object
                  (record (e.context) { variables = (Variables.set e.context.variables name x).1 }))
              h),
      )
      | inr t ↦ inl (inr (rw t (ap (λ (c : Core). c.container) h)))
    ]

pub set_valiable-Leaves :
    (lexical_cast : Str → Option Bool) (k : Core) (specifier name value : Str)
    (caller : SessionInfo)
    → Leaves caller k.container
        (set_valiable lexical_cast k specifier name value caller).1.container
unfolding set_valiable
set_valiable-Leaves lexical_cast k specifier name value caller =
    let q = (permitted_session k specifier caller).1 in
    let kept : Leaves caller k.container q.container =
      Settled-Leaves caller k q (permitted_session-Settled k specifier caller) in
    elim (Outcome-cases (permitted_session k specifier caller).0) [
      | inl (e, found) ↦
          (let f = permitted_session-Finds k specifier caller {e = e} found in
            elim (Bool-cases (exists e.context.variables name)) [
              | inl t ↦ (elim (Option-cases (type_of e.context.variables name)) [
                | inl n ↦ rw (set_valiable, found) (rw t (rw n kept))
                | inr (type, n) ↦ (elim (Option-cases (value_of_type lexical_cast type value)) [
                  | inl v ↦ rw (set_valiable, found) (rw t (rw n (rw v kept)))
                  | inr (x, v) ↦
                      rw (set_valiable, found)
                        (rw t (
                          rw n (
                            rw v (
                              set_or_refuse-Leaves caller k q e name x f.core f.member f.allowed))))
                ])
              ])
              | inr t ↦ rw (set_valiable, found) (rw t kept)
            ])
      | inr (inl (code, e)) ↦ rw (set_valiable, e) kept
      | inr (inr (x, e)) ↦ rw (set_valiable, e) kept
    ]

pub unset_valiable-Leaves :
    (k : Core) (specifier name : Str) (caller : SessionInfo)
    → Leaves caller k.container (unset_valiable k specifier name caller).1.container
unfolding unset_valiable
unset_valiable-Leaves k specifier name caller =
    let q = (permitted_session k specifier caller).1 in
    let kept : Leaves caller k.container q.container =
      Settled-Leaves caller k q (permitted_session-Settled k specifier caller) in
    elim (Outcome-cases (permitted_session k specifier caller).0) [
      | inl (e, found) ↦
          (let f = permitted_session-Finds k specifier caller {e = e} found in
            elim (Bool-cases (exists e.context.variables name)) [
              | inl t ↦
                  rw (unset_valiable, found)
                    (rw t (
                      set_or_refuse-Leaves caller k q e name
                        (Variables.get (make_variable_set k.variable_declarations) name) f.core
                        f.member f.allowed))
              | inr t ↦ rw (unset_valiable, found) (rw t kept)
            ])
      | inr (inl (code, e)) ↦ rw (unset_valiable, e) kept
      | inr (inr (x, e)) ↦ rw (unset_valiable, e) kept
    ]

abbrev pub core_of : Shutdown → Core
core_of (outcome, context, k) = k

request_of-Leaves :
    (type : ShutdownRequest) (caller : SessionInfo) (k : Core) (e : Entry)
    → Mem e k.container
    → Leaves caller k.container (core_of (request_of type caller (purged k) e)).container
unfolding shutdown_request
request_of-Leaves type caller k e m = elim (Bool-cases (is_permitted caller e.context.info)) [
  | inl p ↦ (elim (Bool-cases (shutdown_request e.context type).0) [
    | inl t ↦ inr (e, (shutdown_request e.context type).1, m, p, refl, rw p (rw t refl))
    | inr t ↦ inl (inr (rw p (rw t refl)))
  ])
  | inr p ↦ inl (inr (rw p refl))
]

shutdown_found-Leaves :
    (type : ShutdownRequest) (caller : SessionInfo) (k q : Core) (found : Option Entry)
    (after : Container)
    → searched q after ≡ purged k
    → ((e : Entry) → found ≡ some e → Mem e k.container)
    → Leaves caller k.container (core_of (shutdown_found type caller q (found, after))).container
shutdown_found-Leaves type caller k q none after h m = inl (inr (ap (λ (c : Core). c.container) h))
shutdown_found-Leaves type caller k q (some e) after h m =
    subst (λ (c : Core). Leaves caller k.container (core_of (request_of type caller c e)).container)
      (sym h) (request_of-Leaves type caller k e (m e refl))

shutdown_one-Leaves :
    (type : ShutdownRequest) (context : Option ℕ) (caller : SessionInfo) (k q : Core)
    (o : Outcome ℕ)
    → Settled k q
    → Leaves caller k.container (core_of (shutdown_one type context caller (o, q))).container
unfolding find_session foreach
shutdown_one-Leaves type context caller k q (success id) h =
    let found = find_session q.container id in
    shutdown_found-Leaves type caller k q found.0 found.1 (purged-Settled k q h)
      (λ e n. ((find_session_lem k.container id).0 e (sym (find_session-Settled k q id h) ∙ n)).0)
shutdown_one-Leaves type context caller k q (fails code) h = Settled-Leaves caller k q h
shutdown_one-Leaves type context caller k q (throws x) h = Settled-Leaves caller k q h

pub session_shutdown-Leaves :
    (k : Core) (specifier : Str) (type : ShutdownRequest) (context : Option ℕ)
    (caller : SessionInfo)
    → Leaves caller k.container
        (core_of (session_shutdown k specifier type context caller)).container
unfolding session_shutdown
session_shutdown-Leaves k specifier type context caller =
    let one = find_only_one_session k specifier in
    shutdown_one-Leaves type context caller k one.1 one.0
      (find_only_one_session-Settled k specifier)
