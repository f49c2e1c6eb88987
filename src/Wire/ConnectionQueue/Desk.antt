-- ===== src/Wire/ConnectionQueue/Desk.antt =====
-- A history of slot requests and returns at the queue of free slots (`request`, `request_admin` and
-- `disconnect` or `reject` of `connection_queue`), with the slots that are handed out.
use mathlib.Core.List.{Nodup, Perm, perm_middle, map-append}
use mathlib.Core.List.Perm
use tateyama.Base.{
  ℕ, ◌+◌, ◌-◌, ◌%◌, ◌^◌, ◌≤◌, ◌<◌, ◌≡◌, refl, ap, inl, inr, true, false, some, List, [], ◌∷◌, ◌++◌,
  map, arith, length, length-append, append_assoc, All, All-append, All-append_left,
  All-append_right, if◌then◌else◌, Bool-cases, get_or, set, length-set,
}
use tateyama.Base.Words.{add_size}
use tateyama.Wire.ConnectionQueue.{
  IndexQueue, push, try_pop, try_pop_admin, set_admin, reset_admin, is_admin, admin_bit,
}
use tateyama.Wire.ConnectionQueue.Slots.{IsValid, free_slots, free_slots-push, free_slots-pop}
use tateyama.Wire.ConnectionQueue.Admin.{
  is_admin_small, is_admin-set_admin, reset_admin_small, reset_admin-set_admin,
}

pub record Desk : Type 0 where
  pub queue : IndexQueue
  pub held : List ℕ

-- how many of the handed-out slots have the admin bit
abbrev pub admins : List ℕ → ℕ
admins [] = 0
admins (s ∷ ss) = (if is_admin s then 1 else 0) + admins ss

admins-append : (xs ys : List ℕ) → admins (xs ++ ys) ≡ admins xs + admins ys
admins-append [] ys = omega arith
admins-append (x ∷ xs) ys = omega (arith, admins-append xs ys)

admins-le-length : (xs : List ℕ) → admins xs ≤ length xs
admins-le-length [] = omega arith
admins-le-length (x ∷ xs) = ground (arith, admins-le-length xs)

-- Administrators hold at most `admin_slots` slots at a time, and fewer than 2 ^ 61 slots have been
-- returned so far.
pub data Step (admin_slots : ℕ) (d e : Desk) : Type 0 where
  requests :
      (s : ℕ) (q : IndexQueue)
      → try_pop d.queue ≡ some (s, q)
      → e ≡ record { queue = q; held = s ∷ d.held }
      → Step admin_slots d e
  requests_admin :
      (s : ℕ) (q : IndexQueue)
      → admins d.held < admin_slots
      → try_pop_admin d.queue admin_slots ≡ some (s, q)
      → e ≡ record { queue = q; held = s ∷ d.held }
      → Step admin_slots d e
  returns :
      (s : ℕ) (before after : List ℕ)
      → d.held ≡ before ++ s ∷ after
      → d.queue.pushed < 2 ^ 61
      → e ≡ record { queue = push d.queue s admin_slots; held = before ++ after }
      → Step admin_slots d e

pub data Steps (admin_slots : ℕ) (d : Desk) : Desk → Type 0 where
  here : Steps admin_slots d d
  next : {e f : Desk} → Steps admin_slots d e → Step admin_slots e f → Steps admin_slots d f

abbrev pub all_slots : ℕ → Desk → List ℕ
all_slots admin_slots d = free_slots admin_slots d.queue ++ map reset_admin d.held

-- `n` and `a` are the numbers of normal and of admin slots.
pub record Inv (n a : ℕ) (d : Desk) : Type 0 where
  pub valid : IsValid a d.queue
  pub total : d.queue.capacity ≡ n + a
  pub balance : d.queue.pushed + length d.held ≡ d.queue.poped + n
  pub in_use : d.queue.admin_slots_in_use ≡ admins d.held
  pub admin_limit : admins d.held ≤ a
  pub normal_limit : length d.held ≤ n + admins d.held
  pub distinct : Nodup (all_slots a d)
  pub free_small : All (λ s. s < admin_bit) (free_slots a d.queue)
  pub held_small : All (λ s. reset_admin s < admin_bit) d.held

-- a handed-out slot without its bit is a plain slot number
abbrev IsPlain : ℕ → Type 0
IsPlain s = reset_admin s < admin_bit

come_back :
    (free before after : List ℕ) (s : ℕ)
    → Perm (free ++ (before ++ s ∷ after)) ((free ++ s ∷ []) ++ (before ++ after))
come_back free before after s =
    rw (append_assoc free (s ∷ []) (before ++ after))
      (Perm.append (Perm.refl free) (perm_middle before after))

module _ (n a : ℕ) where
  -- The slot at the front is handed out as `s`.
  take-Inv :
      {d : Desk} (v : Inv n a d) (s p u : ℕ)
      → p ≡ d.queue.poped + 1
      → d.queue.poped < d.queue.pushed + a
      → reset_admin s ≡ get_or d.queue.queue (d.queue.poped % d.queue.capacity) 0
      → u ≡ admins (s ∷ d.held)
      → admins (s ∷ d.held) ≤ a
      → length d.held < n + admins (s ∷ d.held)
      → Inv n a (record {
        queue = record (d.queue) { poped = p; admin_slots_in_use = u };
        held = s ∷ d.held;
      })
  take-Inv {d} v s p u e h r c l m =
      let front = free_slots-pop v.valid p u e h in
      let small = (rw front at v.free_small) in
      let apart = (rw front at v.distinct) in
      record {
        valid = omega (arith, v.valid);
        total = v.total;
        balance = omega (arith, v.balance);
        in_use = c;
        admin_limit = l;
        normal_limit = omega arith;
        distinct = rw r (
            Perm.nodup
              (Perm.symm (
                perm_middle (free_slots a (record (d.queue) { poped = p; admin_slots_in_use = u }))
                  (map reset_admin d.held)))
              apart);
        free_small = small.1;
        held_small = (rw r (small.0), v.held_small);
      }

  -- the slot at the front is a plain slot number
  front_small :
      {d : Desk} (v : Inv n a d)
      → d.queue.poped < d.queue.pushed + a
      → get_or d.queue.queue (d.queue.poped % d.queue.capacity) 0 < admin_bit
  front_small {d} v h = (rw (free_slots-pop v.valid (d.queue.poped + 1) 0 refl h) at v.free_small).0

  requests-Inv :
      {d : Desk} (v : Inv n a d) (s : ℕ) (q : IndexQueue)
      → try_pop d.queue ≡ some (s, q)
      → Inv n a (record { queue = q; held = s ∷ d.held })
  unfolding try_pop
  requests-Inv {d} v s q e =
      let open_slots : d.queue.poped < d.queue.pushed + admins d.held =
        ground (arith, v.in_use, v.valid, v.admin_limit) in
      let slot = get_or d.queue.queue (d.queue.poped % d.queue.capacity) 0 in
      let small = front_small v (omega (arith, v.admin_limit)) in
      let plain = is_admin_small slot small in
      ground (
        arith,
        plain,
        take-Inv v slot (add_size d.queue.poped 1) d.queue.admin_slots_in_use
            (omega (arith, v.valid)) (omega (arith, v.admin_limit)) (reset_admin_small slot small)
            (rw plain (omega (arith, v.in_use))) (rw plain (omega (arith, v.admin_limit)))
            (rw plain (omega (arith, v.balance))),
      )

  requests_admin-Inv :
      {d : Desk} (v : Inv n a d) (s : ℕ) (q : IndexQueue)
      → admins d.held < a
      → try_pop_admin d.queue a ≡ some (s, q)
      → Inv n a (record { queue = q; held = s ∷ d.held })
  unfolding try_pop_admin
  requests_admin-Inv {d} v s q few e =
      let open_slots : d.queue.poped < d.queue.pushed + (a - admins d.held) =
        ground (arith, v.in_use, v.valid, v.admin_limit) in
      let slot = get_or d.queue.queue (d.queue.poped % d.queue.capacity) 0 in
      let small = front_small v (omega arith) in
      let flagged = is_admin-set_admin slot small in
      ground (
        arith,
        flagged,
        take-Inv v (set_admin slot) (add_size d.queue.poped 1)
            ((d.queue.admin_slots_in_use + 1) % 256) (omega (arith, v.valid)) (omega arith)
            (reset_admin-set_admin slot small) (rw flagged (omega (arith, v.in_use, v.valid)))
            (rw flagged (omega arith)) (rw flagged (omega (arith, v.normal_limit))),
      )

  push_flagged :
      (d : Desk) (s : ℕ)
      → is_admin s ≡ true
      → 0 < a
      → d.queue.pushed + a < 2 ^ 63
      → push d.queue s a ≡ record (d.queue) {
        queue = set d.queue.queue ((d.queue.pushed + a) % d.queue.capacity) (reset_admin s);
        pushed = d.queue.pushed + 1;
        admin_slots_in_use = (d.queue.admin_slots_in_use + 255) % 256;
      }
  unfolding push
  push_flagged d s y pos c =
      let place : add_size d.queue.pushed a ≡ d.queue.pushed + a = omega arith in
      let count : add_size d.queue.pushed 1 ≡ d.queue.pushed + 1 = omega arith in
      rw (place, count) (ground arith)

  push_plain :
      (d : Desk) (s : ℕ)
      → is_admin s ≡ false
      → d.queue.pushed + a < 2 ^ 63
      → push d.queue s a ≡ record (d.queue) {
        queue = set d.queue.queue ((d.queue.pushed + a) % d.queue.capacity) (reset_admin s);
        pushed = d.queue.pushed + 1;
      }
  unfolding push reset_admin
  push_plain d s f c =
      let place : add_size d.queue.pushed a ≡ d.queue.pushed + a = omega arith in
      let count : add_size d.queue.pushed 1 ≡ d.queue.pushed + 1 = omega arith in
      rw (place, count) (ground arith)

  pushed_valid :
      {d : Desk} (v : Inv n a d) (m s u : ℕ)
      → m ≡ d.queue.pushed + 1
      → d.queue.pushed + a < d.queue.poped + d.queue.capacity
      → d.queue.pushed < 2 ^ 61
      → IsValid a (record (d.queue) {
        queue = set d.queue.queue ((d.queue.pushed + a) % d.queue.capacity) s;
        pushed = m;
        admin_slots_in_use = u;
      })
  pushed_valid {d} v m s u e room c =
      omega (arith, v.valid, length-set d.queue.queue ((d.queue.pushed + a) % d.queue.capacity) s)

  -- A slot that comes back goes to the end of the free slots, without its admin bit.
  push-free_slots :
      {d : Desk} (v : Inv n a d) (s : ℕ)
      → 0 < length d.held
      → (is_admin s ≡ true → 0 < a)
      → d.queue.pushed < 2 ^ 61
      → (free_slots a (push d.queue s a) ≡ free_slots a d.queue ++ reset_admin s ∷ [])
        × IsValid a (push d.queue s a)
  push-free_slots {d} v s some_held flagged c =
      let room : d.queue.pushed + a < d.queue.poped + d.queue.capacity =
        omega (arith, v.balance, v.total) in
      elim (Bool-cases (is_admin s)) [
        | inl y ↦ rw (push_flagged d s y (flagged y) (omega (arith, v.valid))) (
          free_slots-push v.valid (reset_admin s) (d.queue.pushed + 1) _ refl room,
          pushed_valid v _ (reset_admin s) _ refl room c,
        )
        | inr f ↦ rw (push_plain d s f (omega (arith, v.valid))) (
          free_slots-push v.valid (reset_admin s) (d.queue.pushed + 1) d.queue.admin_slots_in_use
              refl room,
          pushed_valid v _ (reset_admin s) d.queue.admin_slots_in_use refl room c,
        )
      ]

  returned-Inv :
      {d : Desk} (v : Inv n a d) (s u : ℕ) (before after : List ℕ)
      → d.held ≡ before ++ s ∷ after
      → d.queue.pushed < 2 ^ 61
      → u ≡ admins (before ++ after)
      → Inv n a (record {
        queue = record (d.queue) {
          queue = set d.queue.queue ((d.queue.pushed + a) % d.queue.capacity) (reset_admin s);
          pushed = d.queue.pushed + 1;
          admin_slots_in_use = u;
        };
        held = before ++ after;
      })
  returned-Inv {d} v s u before after e c k =
      let lengths = ap length e in
      let counts = ap admins e in
      let room : d.queue.pushed + a < d.queue.poped + d.queue.capacity =
        omega (arith, v.balance, v.total, lengths, length-append before (s ∷ after)) in
      let free = free_slots-push v.valid (reset_admin s) (d.queue.pushed + 1) u refl room in
      let small = (rw e at v.held_small) in
      let later = All-append_right IsPlain before (s ∷ after) small in
      let apart = (rw (e, map-append) at v.distinct) in
      record {
        valid = pushed_valid v (d.queue.pushed + 1) (reset_admin s) u refl room c;
        total = v.total;
        balance = omega (
          arith,
          v.balance,
          lengths,
          length-append before (s ∷ after),
          length-append before after,
        );
        in_use = k;
        admin_limit = omega (
          arith,
          v.admin_limit,
          counts,
          admins-append before (s ∷ after),
          admins-append before after,
        );
        normal_limit = ground (
          arith,
          v.normal_limit,
          lengths,
          counts,
          length-append before (s ∷ after),
          length-append before after,
          admins-append before (s ∷ after),
          admins-append before after,
        );
        distinct =
            rw (free, map-append)
              (Perm.nodup
                (come_back (free_slots a d.queue) (map reset_admin before) (map reset_admin after)
                  (reset_admin s))
                apart);
        free_small = rw free (
            All-append (λ t. t < admin_bit) (free_slots a d.queue) (reset_admin s ∷ []) v.free_small
              (later.0, tt));
        held_small =
            All-append IsPlain before after (All-append_left IsPlain before (s ∷ after) small)
              later.1;
      }

  returns-Inv :
      {d : Desk} (v : Inv n a d) (s : ℕ) (before after : List ℕ)
      → d.held ≡ before ++ s ∷ after
      → d.queue.pushed < 2 ^ 61
      → Inv n a (record { queue = push d.queue s a; held = before ++ after })
  returns-Inv {d} v s before after e c =
      let counts = ap admins e in
      let before_and = admins-append before (s ∷ after) in
      let without = admins-append before after in
      elim (Bool-cases (is_admin s)) [
        | inl y ↦
            rw (push_flagged d s y (ground (arith, v.admin_limit)) (omega (arith, v.valid))) (
              returned-Inv v s _ before after e c
                (ground (arith, v.in_use, v.admin_limit, v.valid)))
        | inr f ↦ rw (push_plain d s f (omega (arith, v.valid))) (
            returned-Inv v s d.queue.admin_slots_in_use before after e c (ground (arith, v.in_use)))
      ]

  pub Step-Inv : {d e : Desk} → Step a d e → Inv n a d → Inv n a e
  Step-Inv (requests s q p e) v = rw e (requests-Inv v s q p)
  Step-Inv (requests_admin s q few p e) v = rw e (requests_admin-Inv v s q few p)
  Step-Inv (returns s before after p c e) v = rw e (returns-Inv v s before after p c)

  pub Steps-Inv : {d e : Desk} → Steps a d e → Inv n a d → Inv n a e
  Steps-Inv here v = v
  Steps-Inv (next r s) v = Step-Inv s (Steps-Inv r v)
