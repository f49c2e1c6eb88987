-- ===== src/Session/Bridge/Ownership.antt =====
-- What the operations of the session service may do to the sessions of other users.
use mathlib.Core.List.{Mem, mem-cons, not-mem-nil}
use mathlib.Core.Logic.Or
use mathlib.Core.Path.{subst}
use tateyama.Base.{
  ℕ, ◌≡◌, ◌≢◌, ◌↔◌, refl, sym, ap, ◌∙◌, inl, inr, ◌⊎◌, Bool, true, false, ◌==◌, ◌||◌, if◌then◌else◌,
  Option, none, some, [], ◌∷◌, arith, Bool-cases, All,
}
use tateyama.Base.Text.{Str, eq_of_str_eq}
use tateyama.Session.Context.{SessionInfo, SessionContext}
use tateyama.Session.Container.{Entry, Container, purge, update}
use tateyama.Session.Container.Registration.{mem-purge_iff}
use tateyama.Session.Bridge.{is_permitted, same_user}

-- Every entry of the object has the session information that `c` has.
abbrev pub SameInfo : ℕ → SessionContext → Entry → Type 0
SameInfo object c e = e.object == object ≡ true → e.context.info ≡ c.info

-- Entries of one object have the same session information.
abbrev pub Agree : Container → Container → Type 0
Agree ds es = All (λ d. All (SameInfo d.object d.context) es) ds

-- The living sessions of other users than the caller are the same before and after.
abbrev pub Untouched : SessionInfo → Container → Container → Type 0
Untouched caller es es' =
    (e : Entry) → e.live ≡ true → e.context.info.username ≢ caller.username → (Mem e es ↔ Mem e es')

same_user-eq : (a b : Option Str) → same_user a b ≡ true → b ≡ a
same_user-eq none none h = refl
same_user-eq none (some t) h = absurd (ground (arith, h))
same_user-eq (some s) none h = absurd (ground (arith, h))
same_user-eq (some s) (some t) h = ap some (sym (eq_of_str_eq s t h))

-- Who is no administrator is permitted the own sessions.
pub is_permitted-own :
    (caller info : SessionInfo)
    → caller.is_administrator ≡ false
    → is_permitted caller info ≡ true
    → info.username ≡ caller.username
is_permitted-own caller info a h =
    same_user-eq caller.username info.username
      (sym (ap (λ (b : Bool). b || same_user caller.username info.username) a) ∙ h)

apart_one :
    {e : Entry} (d : Entry) (es : Container)
    → All (SameInfo d.object d.context) es
    → Mem e es
    → e.context.info.username ≢ d.context.info.username
    → e.object == d.object ≡ true
    → ⊥
apart_one d [] h m other same = not-mem-nil m
apart_one {e} d (x ∷ es) (p, h) m other same =
    Or.elim (hlevel) (mem-cons.0 m)
      (λ q. other (
        ap (λ (y : Entry). y.context.info.username) q
        ∙ ap (λ (i : SessionInfo). i.username)
            (p (sym (ap (λ (y : Entry). y.object == d.object) q) ∙ same))))
      (λ t. apart_one {e = e} d es h t other same)

-- Sessions of two users are two objects.
apart :
    {d e : Entry} (ds es : Container)
    → Agree ds es
    → Mem d ds
    → Mem e es
    → e.context.info.username ≢ d.context.info.username
    → e.object == d.object ≡ true
    → ⊥
apart [] es h m n other same = not-mem-nil m
apart {d} {e} (x ∷ ds) es (p, h) m n other same =
    Or.elim (hlevel) (mem-cons.0 m)
      (λ q.
        apart_one {e = e} x es p n
          (λ u. other (u ∙ sym (ap (λ (y : Entry). y.context.info.username) q)))
          (sym (ap (λ (y : Entry). e.object == y.object) q) ∙ same))
      (λ t. apart {d = d} {e = e} ds es h t n other same)

mem_of_mem-update :
    {e : Entry} (es : Container) (object : ℕ) (c : SessionContext)
    → e.context.info.username ≢ c.info.username
    → Mem e (update es object c)
    → Mem e es
unfolding update
mem_of_mem-update [] object c other m = absurd (not-mem-nil m)
mem_of_mem-update {e} (x ∷ es) object c other m =
    Or.elim (hlevel) (mem-cons.0 m) (λ q. head (x.object == object) q)
      (λ t. mem-cons.1 (Or.inr (mem_of_mem-update {e = e} es object c other t)))
  where
    head : (b : Bool) → e ≡ (if b then record x { context = c } else x) → Mem e (x ∷ es)
    head true q = absurd (other (ap (λ (y : Entry). y.context.info.username) q))
    head false q = mem-cons.1 (Or.inl q)

mem-update :
    {e : Entry} (es : Container) (object : ℕ) (c : SessionContext)
    → e.object == object ≡ false
    → Mem e es
    → Mem e (update es object c)
unfolding update
mem-update [] object c apart m = absurd (not-mem-nil m)
mem-update {e} (x ∷ es) object c apart m =
    Or.elim (hlevel) (mem-cons.0 m)
      (λ q. mem-cons.1 (
        Or.inl (
          q
          ∙ sym (
              ap (λ (b : Bool). if b then record x { context = c } else x)
                (sym (ap (λ (y : Entry). y.object == object) q) ∙ apart)))))
      (λ t. mem-cons.1 (Or.inr (mem-update {e = e} es object c apart t)))

-- How an operation leaves the container: as it was, without the expired sessions, or with a change of
-- a session that the caller may use.
abbrev pub Leaves : SessionInfo → Container → Container → Type 0
Leaves caller es es' =
    ((es' ≡ es) ⊎ (es' ≡ purge es))
    ⊎ ((e : Entry) × (c : SessionContext) × Mem e es
        × (is_permitted caller e.context.info ≡ true)
        × (c.info ≡ e.context.info)
        × (es' ≡ update (purge es) e.object c))

purge-Untouched : (caller : SessionInfo) (es : Container) → Untouched caller es (purge es)
purge-Untouched caller es e l other =
    (λ m. (mem-purge_iff {e = e} es).1 (m, l), λ m. ((mem-purge_iff {e = e} es).0 m).0)

update-Untouched :
    (caller : SessionInfo) (es : Container) (d : Entry) (c : SessionContext)
    → Agree es es
    → Mem d es
    → d.context.info.username ≡ caller.username
    → c.info ≡ d.context.info
    → Untouched caller es (update (purge es) d.object c)
update-Untouched caller es d c agree m own same e l other =
    let others : e.context.info.username ≢ d.context.info.username = λ u. other (u ∙ own) in
    let no : Mem e es → e.object == d.object ≡ false = λ n.
      elim (Bool-cases (e.object == d.object)) [
        | inl t ↦ absurd (apart {d = d} {e = e} es es agree m n others t)
        | inr t ↦ t
      ] in
    (
      λ n. mem-update {e = e} (purge es) d.object c (no n) ((mem-purge_iff {e = e} es).1 (n, l)),
      λ n.
          ((mem-purge_iff {e = e} es).0 (
            mem_of_mem-update {e = e} (purge es) d.object c
              (λ u. others (u ∙ ap (λ (i : SessionInfo). i.username) same)) n)).0,
    )

pub Leaves-Untouched :
    (caller : SessionInfo) (es es' : Container)
    → caller.is_administrator ≡ false
    → Agree es es
    → Leaves caller es es'
    → Untouched caller es es'
Leaves-Untouched caller es es' a agree (inl (inl h)) =
    subst (Untouched caller es) (sym h) (λ e l other. (λ m. m, λ m. m))
Leaves-Untouched caller es es' a agree (inl (inr h)) =
    subst (Untouched caller es) (sym h) (purge-Untouched caller es)
Leaves-Untouched caller es es' a agree (inr (d, c, m, p, same, h)) =
    subst (Untouched caller es) (sym h)
      (update-Untouched caller es d c agree m (is_permitted-own caller d.context.info a p) same)
