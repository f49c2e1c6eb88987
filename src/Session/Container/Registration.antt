-- ===== src/Session/Container/Registration.antt =====
-- What `register_session` and the searches of the container guarantee.
use mathlib.Core.List.{Mem, mem-cons, not-mem-nil}
use mathlib.Core.Logic.{◌∨₁◌}
use mathlib.Core.Logic.Or
use tateyama.Base.{
  if◌then◌else◌, ℕ, ◌≡◌, ◌≢◌, ◌+◌, ◌↔◌, refl, sym, ap, ◌∙◌, inl, inr, ◌⊎◌, Bool, true, false, ◌==◌,
  Option, none, some, List, [], ◌∷◌, arith, All, length, Bool-cases,
}
use tateyama.Session.Context.{numeric_id}
use tateyama.Session.Container.{
  Entry, Container, purge, contains, emplace, register_session, foreach, last_match, find_session,
}

not_contained : (es : Container) (a : ℕ) → All (λ e. e.address ≢ a) es → contains es a ≡ false
unfolding contains
not_contained [] a h = refl
not_contained (e ∷ es) a (p, h) = ground (arith, not_contained es a h)

All-if {ℓ} :
    (P : Entry → Type ℓ) (b : Bool) (xs ys : List Entry)
    → All P xs
    → All P ys
    → All P (if b then xs else ys)
All-if P true xs ys hx hy = hx
All-if P false xs ys hx hy = hy

pub All-purge {ℓ} : (P : Entry → Type ℓ) (es : Container) → All P es → All P (purge es)
unfolding purge
All-purge P [] h = tt
All-purge P (e ∷ es) (p, h) =
    All-if P e.live (e ∷ purge es) (purge es) (p, All-purge P es h) (All-purge P es h)

length-emplace :
    (es : Container) (s : Entry)
    → All (λ e. e.address ≢ s.address) es
    → length (emplace es s) ≡ length es + 1
unfolding emplace
length-emplace [] s h = refl
length-emplace (e ∷ es) s (p, h) = ground (arith, length-emplace es s h)

-- Where the weak pointer made for the call and the new element are at addresses that no element of
-- the container has, as in memory they are, a registration is accepted and adds an element, also that
-- of a session that the container has already.
pub register_session-accepts :
    (es : Container) (temporary : ℕ) (s : Entry)
    → All (λ e. e.address ≢ temporary) es
    → All (λ e. e.address ≢ s.address) es
    → let (accepted, after) = register_session es temporary s in
      (accepted ≡ true) × (length after ≡ length (purge es) + 1)
unfolding register_session
register_session-accepts es temporary s ht hs =
    rw (not_contained (purge es) temporary (All-purge (λ e. e.address ≢ temporary) es ht))
      (refl, length-emplace (purge es) s (All-purge (λ e. e.address ≢ s.address) es hs))

last_match-some :
    (id : ℕ) (es : List Entry) (rv : Option Entry) {e : Entry}
    → last_match id es rv ≡ some e
    → (rv ≡ some e) ⊎ (Mem e es × (numeric_id e.context ≡ id))
unfolding last_match
last_match-some id [] rv h = inl h
last_match-some id (d ∷ es) rv {e} h = elim (Bool-cases (id == numeric_id d.context)) [
  | inl t ↦ elim (last_match-some id es (some d) {e = e} (rw t at h)) [
    | inl q ↦ let same : e ≡ d = cc in inr (mem-cons.1 (Or.inl same), ground (arith, t, same))
    | inr (m, q) ↦ inr (mem-cons.1 (Or.inr m), q)
  ]
  | inr t ↦ elim (last_match-some id es rv {e = e} (rw t at h)) [
    | inl q ↦ inl q
    | inr (m, q) ↦ inr (mem-cons.1 (Or.inr m), q)
  ]
]

last_match-none :
    (id : ℕ) (es : List Entry) (rv : Option Entry)
    → last_match id es rv ≡ none
    → (rv ≡ none) × All (λ e. numeric_id e.context ≢ id) es
unfolding last_match
last_match-none id [] rv h = (h, tt)
last_match-none id (d ∷ es) rv h = elim (Bool-cases (id == numeric_id d.context)) [
  | inl t ↦ let (q, _) = last_match-none id es (some d) (rw t at h) in absurd (ground (arith, q))
  | inr t ↦ let (q, a) = last_match-none id es rv (rw t at h) in (q, (ground (arith, t), a))
]

mem-if :
    {e : Entry} (b : Bool) (d : Entry) (xs : List Entry)
    → Mem e (if b then d ∷ xs else xs)
    → ((e ≡ d) × (b ≡ true)) ∨₁ Mem e xs
mem-if {e} true d xs m = Or.elim (hlevel) (mem-cons.0 m) (λ p. Or.inl (p, refl)) (λ t. Or.inr t)
mem-if {e} false d xs m = Or.inr m

mem_of_mem-purge : {e : Entry} (es : Container) → Mem e (purge es) → Mem e es × (e.live ≡ true)
unfolding purge
mem_of_mem-purge {e} [] m = absurd (not-mem-nil m)
mem_of_mem-purge {e} (d ∷ es) m =
    Or.elim (hlevel) (mem-if d.live d (purge es) m)
      (λ (p, l). (mem-cons.1 (Or.inl p), ap (λ (x : Entry). x.live) p ∙ l))
      (λ t. let (i, l) = mem_of_mem-purge {e = e} es t in (mem-cons.1 (Or.inr i), l))

All-if_left {ℓ} :
    (P : Entry → Type ℓ) (b : Bool) (d : Entry) (xs : List Entry)
    → All P (if b then d ∷ xs else xs)
    → (b ≡ true → P d) × All P xs
All-if_left P true d xs h = (λ _. h.0, h.1)
All-if_left P false d xs h = (λ e. absurd (ground (arith, e)), h)

All-purge_back {ℓ} :
    (P : Entry → Type ℓ) (es : Container) → All P (purge es) → All (λ e. e.live ≡ true → P e) es
unfolding purge
All-purge_back P [] h = tt
All-purge_back P (d ∷ es) h =
    let (now, rest) = All-if_left P d.live d (purge es) h in (now, All-purge_back P es rest)

mem-if_back :
    {e : Entry} (b : Bool) (d : Entry) (xs : List Entry)
    → Mem e xs
    → Mem e (if b then d ∷ xs else xs)
mem-if_back true d xs m = mem-cons.1 (Or.inr m)
mem-if_back false d xs m = m

mem-if_head :
    {e : Entry} (b : Bool) (d : Entry) (xs : List Entry)
    → e ≡ d
    → b ≡ true
    → Mem e (if b then d ∷ xs else xs)
mem-if_head true d xs p l = mem-cons.1 (Or.inl p)
mem-if_head false d xs p l = absurd (ground (arith, l))

mem-purge : {e : Entry} (es : Container) → Mem e es → e.live ≡ true → Mem e (purge es)
unfolding purge
mem-purge {e} [] m l = absurd (not-mem-nil m)
mem-purge {e} (d ∷ es) m l =
    Or.elim (hlevel) (mem-cons.0 m)
      (λ p. mem-if_head {e = e} d.live d (purge es) p (ap (λ (x : Entry). x.live) (sym p) ∙ l))
      (λ t. mem-if_back {e = e} d.live d (purge es) (mem-purge {e = e} es t l))

-- What is left of a set after `foreach` are its living elements.
pub mem-purge_iff : {e : Entry} (es : Container) → Mem e (purge es) ↔ (Mem e es × (e.live ≡ true))
mem-purge_iff {e} es = (λ m. mem_of_mem-purge {e = e} es m, λ (m, l). mem-purge {e = e} es m l)

-- `find_session` answers a living session of the container with that id, and no session only where
-- no living one has the id. The container after it has the living elements.
pub find_session_lem :
    (es : Container) (id : ℕ)
    → let (found, after) = find_session es id in
      ((e : Entry) → found ≡ some e → Mem e es × (e.live ≡ true) × (numeric_id e.context ≡ id))
      × (found ≡ none → All (λ e. e.live ≡ true → numeric_id e.context ≢ id) es)
      × ((e : Entry) → Mem e after ↔ (Mem e es × (e.live ≡ true)))
unfolding find_session foreach
find_session_lem es id = (
  λ e h. elim (last_match-some id (purge es) none {e = e} h) [
    | inl q ↦ absurd (ground (arith, q))
    | inr (m, q) ↦ let (i, l) = mem_of_mem-purge {e = e} es m in (i, l, q)
  ],
  λ h. All-purge_back (λ e. numeric_id e.context ≢ id) es (last_match-none id (purge es) none h).1,
  λ e. mem-purge_iff {e = e} es,
)
