-- ===== src/Session/Bridge/Search.antt =====
-- How the operations of the session service come to their session, and what the search leaves of the
-- container.
use mathlib.Core.List.{Mem}
use tateyama.Base.{
  ℕ, ◌≡◌, refl, sym, ap, ◌∙◌, inl, inr, ◌⊎◌, Bool, true, false, ◌==◌, if◌then◌else◌, Option, none,
  some, [], ◌∷◌, arith, Bool-cases,
}
use tateyama.Base.Text.{Str}
use tateyama.Session.Context.{SessionInfo}
use tateyama.Session.Container.{Entry, Container, find_session, foreach, purge, enumerate_by_label}
use tateyama.Session.Container.Registration.{find_session_lem}
use tateyama.Session.Bridge.{
  Core, Outcome, success, fails, throws, find_only_one_session, find_by_id, check_user, searched,
  permitted_session, is_permitted, session_not_found, no_permission, ErrorCode, Exception,
}

purge-if :
    (e : Entry) (es : Container) (b : Bool)
    → e.live ≡ b
    → purge es ≡ es
    → purge (if b then e ∷ es else es) ≡ (if b then e ∷ es else es)
unfolding purge
purge-if e es true t h =
    ap (λ (b : Bool). if b then e ∷ purge es else purge es) t ∙ ap (λ (xs : Container). e ∷ xs) h
purge-if e es false t h = h

pub purge-purge : (es : Container) → purge (purge es) ≡ purge es
unfolding purge
purge-purge [] = refl
purge-purge (e ∷ es) = purge-if e (purge es) e.live refl (purge-purge es)

-- the core after a search of the whole container
abbrev pub purged : Core → Core
purged k = searched k (purge k.container)

-- A search has erased the expired sessions, or has not taken place.
abbrev pub Settled : Core → Core → Type 0
Settled k q = (q ≡ purged k) ⊎ (q ≡ k)

pub purged-Settled : (k q : Core) → Settled k q → purged q ≡ purged k
purged-Settled k q (inl h) = ap purged h ∙ ap (searched k) (purge-purge k.container)
purged-Settled k q (inr h) = ap purged h

pub find_session-purged :
    (es : Container) (id : ℕ) → (find_session (purge es) id).0 ≡ (find_session es id).0
unfolding find_session foreach
find_session-purged es id = rw (purge-purge es) refl

pub find_session-Settled :
    (k q : Core) (id : ℕ)
    → Settled k q
    → (find_session q.container id).0 ≡ (find_session k.container id).0
find_session-Settled k q id (inl h) =
    ap (λ (c : Core). (find_session c.container id).0) h ∙ find_session-purged k.container id
find_session-Settled k q id (inr h) = ap (λ (c : Core). (find_session c.container id).0) h

pub find_only_one_session-Settled :
    (k : Core) (specifier : Str) → Settled k (find_only_one_session k specifier).1
unfolding find_only_one_session enumerate_by_label foreach
find_only_one_session-Settled k [] = inr refl
find_only_one_session-Settled k (c ∷ cs) = elim (Bool-cases (c == 58)) [
  | inl t ↦ inr (rw t refl)
  | inr t ↦ inl (rw t refl)
]

pub Outcome-cases {ℓ} :
    {A : Type ℓ} (o : Outcome A)
    → ((id : A) × (o ≡ success id))
      ⊎ (((code : ErrorCode) × (o ≡ fails code)) ⊎ ((x : Exception) × (o ≡ throws x)))
Outcome-cases (success id) = inl (id, refl)
Outcome-cases (fails code) = inr (inl (code, refl))
Outcome-cases (throws x) = inr (inr (x, refl))

abbrev pub chain : Outcome ℕ → (ℕ → Outcome Entry) → Outcome Entry
chain (success id) f = f id
chain (fails code) f = fails code
chain (throws x) f = throws x

abbrev pub checked : SessionInfo → Option Entry → Outcome Entry
checked caller none = fails session_not_found
checked caller (some e) =
    if is_permitted caller e.context.info then success e else throws no_permission

pub chain-success :
    (o : Outcome ℕ) (f : ℕ → Outcome Entry) {e : Entry}
    → chain o f ≡ success e
    → (id : ℕ) × (o ≡ success id) × (f id ≡ success e)
chain-success (success id) f h = (id, refl, h)
chain-success (fails code) f h = absurd (ground (arith, h))
chain-success (throws x) f h = absurd (ground (arith, h))

pub checked-success :
    (caller : SessionInfo) (o : Option Entry) {e : Entry}
    → checked caller o ≡ success e
    → (o ≡ some e) × (is_permitted caller e.context.info ≡ true)
checked-success caller none h = absurd (ground (arith, h))
checked-success caller (some d) {e} h = elim (Bool-cases (is_permitted caller d.context.info)) [
  | inl t ↦ (let same : d ≡ e = ground (arith, h, t) in (ap some same, rw⁻¹ same t))
  | inr t ↦ absurd (ground (arith, h, t))
]

check_user-checked :
    (caller : SessionInfo) (k : Core) (found : Option Entry × Container)
    → (check_user caller k found).0 ≡ checked caller found.0
check_user-checked caller k (none, after) = refl
check_user-checked caller k (some e, after) = refl

check_user-searched :
    (caller : SessionInfo) (k : Core) (found : Option Entry × Container)
    → (check_user caller k found).1 ≡ searched k found.1
check_user-searched caller k (none, after) = refl
check_user-searched caller k (some e, after) = refl

find_by_id-chain :
    (caller : SessionInfo) (k q : Core) (o : Outcome ℕ)
    → Settled k q
    → (find_by_id caller (o, q)).0 ≡ chain o (λ id. checked caller (find_session k.container id).0)
find_by_id-chain caller k q (success id) h =
    check_user-checked caller q (find_session q.container id)
    ∙ ap (checked caller) (find_session-Settled k q id h)
find_by_id-chain caller k q (fails code) h = refl
find_by_id-chain caller k q (throws x) h = refl

find_by_id-Settled :
    (caller : SessionInfo) (k q : Core) (o : Outcome ℕ)
    → Settled k q
    → Settled k (find_by_id caller (o, q)).1
unfolding find_session foreach
find_by_id-Settled caller k q (success id) h =
    inl (check_user-searched caller q (find_session q.container id) ∙ purged-Settled k q h)
find_by_id-Settled caller k q (fails code) h = h
find_by_id-Settled caller k q (throws x) h = h

find_by_id-purged :
    (caller : SessionInfo) (k q : Core) (o : Outcome ℕ) {e : Entry}
    → Settled k q
    → (find_by_id caller (o, q)).0 ≡ success e
    → (find_by_id caller (o, q)).1 ≡ purged k
unfolding find_session foreach
find_by_id-purged caller k q (success id) h found =
    check_user-searched caller q (find_session q.container id) ∙ purged-Settled k q h
find_by_id-purged caller k q (fails code) h found = absurd (ground (arith, found))
find_by_id-purged caller k q (throws x) h found = absurd (ground (arith, found))

pub permitted_session-chain :
    (k : Core) (specifier : Str) (caller : SessionInfo)
    → (permitted_session k specifier caller).0
      ≡ chain
          (find_only_one_session k specifier).0
          (λ id. checked caller (find_session k.container id).0)
unfolding permitted_session
permitted_session-chain k specifier caller =
    let one = find_only_one_session k specifier in
    find_by_id-chain caller k one.1 one.0 (find_only_one_session-Settled k specifier)

pub permitted_session-Settled :
    (k : Core) (specifier : Str) (caller : SessionInfo)
    → Settled k (permitted_session k specifier caller).1
unfolding permitted_session
permitted_session-Settled k specifier caller =
    let one = find_only_one_session k specifier in
    find_by_id-Settled caller k one.1 one.0 (find_only_one_session-Settled k specifier)

-- what a search that has found its session has done
pub record Finds (k : Core) (specifier : Str) (caller : SessionInfo) (e : Entry) : Type 0 where
  pub id : ℕ
  pub one : (find_only_one_session k specifier).0 ≡ success id
  pub there : (find_session k.container id).0 ≡ some e
  pub member : Mem e k.container
  pub living : e.live ≡ true
  pub allowed : is_permitted caller e.context.info ≡ true
  pub core : (permitted_session k specifier caller).1 ≡ purged k

pub permitted_session-Finds :
    (k : Core) (specifier : Str) (caller : SessionInfo) {e : Entry}
    → (permitted_session k specifier caller).0 ≡ success e
    → Finds k specifier caller e
unfolding permitted_session
permitted_session-Finds k specifier caller {e} found =
    let first = find_only_one_session k specifier in
    let (id, one, f) =
      chain-success first.0 (λ i. checked caller (find_session k.container i).0) {e = e}
        (sym (permitted_session-chain k specifier caller) ∙ found) in
    let (there, allowed) = checked-success caller (find_session k.container id).0 {e = e} f in
    let (member, living, _) = (find_session_lem k.container id).0 e there in
    record {
      id = id;
      one = one;
      there = there;
      member = member;
      living = living;
      allowed = allowed;
      core =
          find_by_id-purged caller k first.1 first.0 {e = e}
            (find_only_one_session-Settled k specifier) found;
    }
